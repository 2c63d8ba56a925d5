-- ===== src/Evm/Create.antt =====
-- `create` of core/vm/evm.go, which `Create` calls with the address of the caller's nonce.
use kkchain.Base.{
  ℕ, ◌+◌, ◌-◌, ◌*◌, ◌%◌, ◌^◌, List, [], Option, none, some, Bool, true, false, not, ◌&&◌, ◌||◌,
  ◌==◌, if◌then◌else◌, ltb, length, ◌>>=◌, ℤ,
}
use kkchain.State.Types.{StateDb}
use kkchain.State.Store.{create_account}
use kkchain.State.Methods.{set_nonce, set_code}
use kkchain.State.Getters.{get_nonce, get_code_hash}
use kkchain.State.Revert.{snapshot, revert_to_snapshot}
use kkchain.Evm.Defs.{
  VmError, code_store_out_of_gas, depth_limit, insufficient_balance, address_collision,
  max_code_size_exceeded, Ran, Evm, Called, call_create_depth, create_data_gas, max_code_size,
  use_gas, is_reverted, is_code_store, can_transfer, transfer, returns, new_contract,
}

-- Whether the error of a creation takes the state back.
abbrev pub undoes : Option VmError → Bool
undoes none = false
undoes (some e) = not (is_code_store e)

abbrev pub gas_kept : Option VmError → ℕ → ℕ
gas_kept none gas = gas - gas
gas_kept (some e) gas = if is_reverted e then gas else gas - gas

-- An oversized contract without another error.
abbrev pub size_error : Bool → Option VmError → Option VmError
size_error true none = some max_code_size_exceeded
size_error _ e = e

module _ {Trie : Type 0} where
  abbrev pub store_with : ℕ → Ran Trie → Option ℕ → Ran Trie
  store_with addr r none = record r { error = some code_store_out_of_gas }
  store_with addr r (some gas) = record r { state = set_code r.state addr r.output; gas = gas }

  -- The gas for each byte of the code, and the code itself.
  unfoldable pub store_code : ℕ → Ran Trie → Ran Trie
  store_code addr r =
      store_with addr r (use_gas r.gas ((length r.output * create_data_gas) % (2 ^ 64)))

  -- `none` as the error: the run was successful.
  unfoldable pub store_if_ran : ℕ → Bool → Option VmError → Ran Trie → Ran Trie
  unfolding store_code
  store_if_ran addr false none r = store_code addr r
  store_if_ran addr oversized e r = r

  unfoldable pub finish_create : ℕ → Bool → Ran Trie → Option (Called Trie)
  finish_create id oversized r =
      if oversized || undoes r.error
      then (revert_to_snapshot r.state id >>= λ s. some (record {
        state = s;
        output = r.output;
        gas = gas_kept r.error r.gas;
        error = size_error oversized r.error;
      }))
      else some (record { state = r.state; output = r.output; gas = r.gas; error = r.error })

  -- What follows the run of the creation code.
  unfoldable pub after_run : ℕ → ℕ → Ran Trie → Option (Called Trie)
  unfolding store_if_ran finish_create
  after_run id addr r =
      let oversized = ltb max_code_size (length r.output) in
      finish_create id oversized (store_if_ran addr oversized r.error r)

  -- The part of `create` under the snapshot.
  unfoldable pub deploy :
      Evm Trie → ℕ → List ℕ → ℕ → ℤ → ℕ → StateDb Trie × ℕ → Option (Called Trie)
  unfolding after_run
  deploy evm caller code gas value addr (s, id) =
      let s' = transfer (set_nonce (create_account s addr) addr 1) caller addr value in
      if evm.no_recursion && ltb 0 evm.depth
      then returns s' gas none
      else after_run id addr (
          evm.runs false
            (record (new_contract caller addr value gas) {
              code_hash = evm.keccak code;
              code = some code;
            })
            [] s')

  -- Whether an account at the address of a new contract is in the way.
  unfoldable pub collides : Evm Trie → ℕ → ℕ → Bool
  collides evm nonce hash =
      not (nonce == 0) || (not (hash == 0) && not (hash == evm.empty_code_hash))

  -- From the nonce of the caller on.
  unfoldable pub create_for :
      Evm Trie → StateDb Trie → ℕ → List ℕ → ℕ → ℤ → ℕ → Option (Called Trie)
  unfolding deploy collides
  create_for evm s caller code gas value addr =
      let (s1, nonce) = get_nonce s caller in
      let s2 = set_nonce s1 caller ((nonce + 1) % (2 ^ 64)) in
      let (s3, hash) = get_code_hash s2 addr in
      let (s4, taken) = get_nonce s3 addr in
      if collides evm taken hash
      then returns s4 0 (some address_collision)
      else deploy evm caller code gas value addr (snapshot s4)

  -- `create`; the address it returns is its argument, and 0 where it fails before the snapshot.
  unfoldable pub create_contract :
      Evm Trie → StateDb Trie → ℕ → List ℕ → ℕ → ℤ → ℕ → Option (Called Trie)
  unfolding create_for
  create_contract evm s caller code gas value addr =
      if ltb call_create_depth evm.depth
      then returns s gas (some depth_limit)
      else (let (s1, enough) = can_transfer s caller value in
          if enough
          then create_for evm s1 caller code gas value addr
          else returns s1 gas (some insufficient_balance))

  -- `Create`
  unfoldable pub create : Evm Trie → StateDb Trie → ℕ → List ℕ → ℕ → ℤ → Option (Called Trie)
  unfolding create_contract
  create evm s caller code gas value =
      let (s1, nonce) = get_nonce s caller in
      create_contract evm s1 caller code gas value (evm.create_address caller nonce)
