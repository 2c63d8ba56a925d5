-- ===== src/Evm/Defs.antt =====
-- `Call`, `CallCode`, `DelegateCall` and `StaticCall` of core/vm/evm.go. The bytecode
-- interpreter and the precompiled contracts behind `run` are the parameter `runs`; the tracer is
-- left out. `none` is a panic.
use kkchain.Base.{
  ℕ, ◌-◌, List, [], Option, none, some, Bool, true, false, not, ◌&&◌, if◌then◌else◌, ltb, ◌>>=◌, ℤ,
  ltb_ℤ,
}
use kkchain.State.Types.{StateDb}
use kkchain.State.Object.{is_zero, big_zero}
use kkchain.State.Store.{create_account}
use kkchain.State.Methods.{add_balance, sub_balance}
use kkchain.State.Getters.{exist, get_balance, get_code_hash, get_code}
use kkchain.State.Revert.{snapshot, revert_to_snapshot}

-- The errors of core/vm that the calls tell apart; `failure` is any other.
pub data VmError : Type 0 where
  out_of_gas code_store_out_of_gas depth_limit insufficient_balance address_collision : VmError
  execution_reverted max_code_size_exceeded : VmError
  failure : ℕ → VmError

pub record Contract : Type 0 where
  pub caller_address : ℕ
  pub caller : ℕ
  pub self : ℕ
  pub code : Option (List ℕ)
  pub code_hash : ℕ
  pub code_addr : ℕ
  pub gas : ℕ
  pub value : ℤ

-- What a run of the interpreter leaves: the state, the gas of the contract, the output.
pub record Ran (Trie : Type 0) : Type 0 where
  pub state : StateDb Trie
  pub gas : ℕ
  pub output : List ℕ
  pub error : Option VmError

-- The parts of an EVM that its calls read.
pub record Evm (Trie : Type 0) : Type 0 where
  pub coinbase : ℕ
  pub depth : ℕ
  pub no_recursion : Bool
  pub is_precompiled : ℕ → Bool
  pub empty_code_hash : ℕ
  pub keccak : List ℕ → ℕ
  pub create_address : ℕ → ℕ → ℕ
  -- `run`, with the flag whether the interpreter is read-only
  pub runs : Bool → Contract → List ℕ → StateDb Trie → Ran Trie

-- What a call returns.
pub record Called (Trie : Type 0) : Type 0 where
  pub state : StateDb Trie
  pub output : List ℕ
  pub gas : ℕ
  pub error : Option VmError

-- params.CallCreateDepth, params.CreateDataGas and params.MaxCodeSize
abbrev pub call_create_depth : ℕ
call_create_depth = 1024

abbrev pub create_data_gas : ℕ
create_data_gas = 200

abbrev pub max_code_size : ℕ
max_code_size = 24576

-- `contract.UseGas`: the gas that is left, if there is enough
unfoldable pub use_gas : ℕ → ℕ → Option ℕ
use_gas gas amount = if ltb gas amount then none else some (gas - amount)

abbrev pub is_reverted : VmError → Bool
is_reverted execution_reverted = true
is_reverted _ = false

abbrev pub is_code_store : VmError → Bool
is_code_store code_store_out_of_gas = true
is_code_store _ = false

-- `NewContract`
abbrev pub new_contract : ℕ → ℕ → ℤ → ℕ → Contract
new_contract caller self value gas = record {
  caller_address = caller;
  caller = caller;
  self = self;
  code = none;
  code_hash = 0;
  code_addr = self;
  gas = gas;
  value = value;
}

module _ {Trie : Type 0} where
  -- `CanTransfer`
  unfoldable pub can_transfer : StateDb Trie → ℕ → ℤ → StateDb Trie × Bool
  can_transfer s a amount = let (s', b) = get_balance s a in (s', not (ltb_ℤ b amount))

  -- `Transfer`
  unfoldable pub transfer : StateDb Trie → ℕ → ℕ → ℤ → StateDb Trie
  transfer s sender recipient amount = add_balance (sub_balance s sender amount) recipient amount

  abbrev pub returns : StateDb Trie → ℕ → Option VmError → Option (Called Trie)
  returns s gas e = some (record { state = s; output = []; gas = gas; error = e })

  -- What follows `run`: on an error, back to the snapshot, and the gas is gone unless the contract
  -- itself reverted.
  after_error : StateDb Trie → ℕ → ℕ → List ℕ → Option VmError → Option (Called Trie)
  after_error s id gas output none =
      some (record { state = s; output = output; gas = gas; error = none })
  after_error s id gas output (some e) = revert_to_snapshot s id >>= λ s'. some (record {
    state = s';
    output = output;
    gas = if is_reverted e then gas else gas - gas;
    error = some e;
  })

  unfoldable pub finish_call : ℕ → Ran Trie → Option (Called Trie)
  unfolding after_error
  finish_call id r = after_error r.state id r.gas r.output r.error

  -- A new contract over the code at `addr`, run under the snapshot `id`.
  unfoldable pub run_code :
      Evm Trie → Bool → Contract → ℕ → List ℕ → ℕ → StateDb Trie → Option (Called Trie)
  unfolding finish_call
  run_code evm read_only contract addr input id s =
      let (s1, hash) = get_code_hash s addr in
      let (s2, code) = get_code s1 addr in
      finish_call id (
        evm.runs read_only (record contract { code_hash = hash; code = code; code_addr = addr })
          input s2)

  -- The rest of `Call` from the value transfer on.
  unfoldable pub enter_call :
      Evm Trie → ℕ → ℕ → List ℕ → ℕ → ℤ → ℕ → StateDb Trie → Option (Called Trie)
  unfolding run_code
  enter_call evm caller addr input gas value id s =
      run_code evm false (new_contract caller addr value gas) addr input id
        (transfer s caller addr value)

  -- The part of `Call` under the snapshot.
  unfoldable pub call_account :
      Evm Trie → ℕ → ℕ → List ℕ → ℕ → ℤ → StateDb Trie × ℕ → Option (Called Trie)
  unfolding enter_call
  call_account evm caller addr input gas value (s, id) =
      let (s', found) = exist s addr in
      if found
      then enter_call evm caller addr input gas value id s'
      else (if not (evm.is_precompiled addr) && is_zero value
          then returns s' gas none
          else enter_call evm caller addr input gas value id (create_account s' addr))

  -- The guards on the depth, which all the calls begin with.
  abbrev pub guarded : Evm Trie → StateDb Trie → ℕ → Option (Called Trie) → Option (Called Trie)
  guarded evm s gas rest =
      if evm.no_recursion && ltb 0 evm.depth
      then returns s gas none
      else (if ltb call_create_depth evm.depth then returns s gas (some depth_limit) else rest)

  -- `Call`
  unfoldable pub call_contract :
      Evm Trie → StateDb Trie → ℕ → ℕ → List ℕ → ℕ → ℤ → Option (Called Trie)
  unfolding call_account
  call_contract evm s caller addr input gas value =
      let (s1, enough) = can_transfer s caller value in
      guarded evm s gas (
        if enough
        then call_account evm caller addr input gas value (snapshot s1)
        else returns s1 gas (some insufficient_balance))

  -- `CallCode`: the code at `addr` in the context of the caller. The value is not moved.
  unfoldable pub call_code : Evm Trie → StateDb Trie → ℕ → ℕ → List ℕ → ℕ → ℤ → Option (Called Trie)
  unfolding run_code
  call_code evm s caller addr input gas value =
      let (s1, enough) = can_transfer s caller value in
      let (s2, id) = snapshot s1 in
      guarded evm s gas (
        if enough
        then run_code evm false (new_contract caller caller value gas) addr input id s2
        else returns s1 gas (some insufficient_balance))

  -- `DelegateCall`: the caller is the contract `parent`, whose caller and value are kept.
  unfoldable pub delegate_call :
      Evm Trie → StateDb Trie → Contract → ℕ → List ℕ → ℕ → Option (Called Trie)
  unfolding run_code
  delegate_call evm s parent addr input gas =
      let (s1, id) = snapshot s in
      guarded evm s gas (
        run_code evm false
          (record (new_contract parent.self parent.self parent.value gas) {
            caller_address = parent.caller_address;
          })
          addr input id s1)

  -- `StaticCall`: the interpreter is read-only while the code runs.
  unfoldable pub static_call : Evm Trie → StateDb Trie → ℕ → ℕ → List ℕ → ℕ → Option (Called Trie)
  unfolding run_code
  static_call evm s caller addr input gas =
      let (s1, id) = snapshot s in
      guarded evm s gas (run_code evm true (new_contract caller addr big_zero gas) addr input id s1)
