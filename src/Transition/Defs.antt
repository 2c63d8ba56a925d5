-- ===== src/Transition/Defs.antt =====
-- `StateTransition` of core/state_transition.go and `GasPool` of core/gaspool.go. `none` is a panic.
use kkchain.Base.{
  ℕ, ◌+◌, ◌-◌, ◌*◌, ◌/◌, ◌%◌, ◌^◌, List, [], ◌∷◌, Option, none, some, Bool, true, false, ◌==◌,
  if◌then◌else◌, ltb, length, ◌>>=◌, ℤ, pos, ◌*ℤ◌, ltb_ℤ,
}
use kkchain.State.Types.{StateDb}
use kkchain.State.Methods.{add_balance, sub_balance, set_nonce}
use kkchain.State.Getters.{get_balance, get_nonce}
use kkchain.Evm.Defs.{VmError, out_of_gas, insufficient_balance, Evm, Called, call_contract}
use kkchain.Evm.Create.{create}

pub data TransitionError : Type 0 where
  insufficient_balance_for_gas gas_limit_reached nonce_too_high nonce_too_low : TransitionError
  vm_error : VmError → TransitionError

pub record Message : Type 0 where
  pub sender : ℕ
  pub recipient : Option ℕ
  pub gas_price : ℤ
  pub gas : ℕ
  pub value : ℤ
  pub nonce : ℕ
  pub check_nonce : Bool
  pub data_bytes : List ℕ

-- math.MaxUint64
abbrev pub max_uint64 : ℕ
max_uint64 = 18446744073709551615

-- params.TxGasContractCreation, params.TxDataNonZeroGas and params.TxDataZeroGas
abbrev pub tx_gas_contract_creation : ℕ
tx_gas_contract_creation = 53000

abbrev pub tx_data_non_zero_gas : ℕ
tx_data_non_zero_gas = 68

abbrev pub tx_data_zero_gas : ℕ
tx_data_zero_gas = 4

-- The bytes that are not zero.
unfoldable pub non_zero_count : List ℕ → ℕ
non_zero_count [] = 0
non_zero_count (b ∷ bs) = let rest = non_zero_count bs in if b == 0 then rest else 1 + rest

-- One step of `IntrinsicGas`: the gas and `n` bytes at `price`, unless that is above MaxUint64.
unfoldable pub charge : ℕ → ℕ → ℕ → Option ℕ
charge gas price n =
    if ltb ((max_uint64 - gas) / price) n then none else some ((gas + n * price) % (2 ^ 64))

unfoldable pub data_gas : ℕ → List ℕ → Option ℕ
unfolding charge
data_gas gas [] = some gas
data_gas gas (b ∷ bs) =
    let nz = non_zero_count (b ∷ bs) in
    charge gas tx_data_non_zero_gas nz >>= λ gas'.
    charge gas' tx_data_zero_gas (length (b ∷ bs) - nz)

-- `IntrinsicGas`; `none` is ErrOutOfGas.
unfoldable pub intrinsic_gas : List ℕ → Bool → Option ℕ
unfolding data_gas
intrinsic_gas bytes contract_creation =
    data_gas (if contract_creation then tx_gas_contract_creation else 0) bytes

-- `GasPool.AddGas`; `none` is its panic.
unfoldable pub add_gas : ℕ → ℕ → Option ℕ
add_gas pool amount =
    if ltb (max_uint64 - amount) pool then none else some ((pool + amount) % (2 ^ 64))

-- `GasPool.SubGas`; `none` is ErrGasLimitReached.
unfoldable pub sub_gas : ℕ → ℕ → Option ℕ
sub_gas pool amount = if ltb pool amount then none else some (pool - amount)

-- The parts of a `StateTransition` that change.
pub record Transition (Trie : Type 0) : Type 0 where
  pub state : StateDb Trie
  pub pool : ℕ
  pub gas : ℕ
  pub initial_gas : ℕ

-- What `TransitionDb` leaves and returns.
pub record Finished (Trie : Type 0) : Type 0 where
  pub after : Transition Trie
  pub output : List ℕ
  pub used_gas : ℕ
  pub failed : Bool
  pub error : Option TransitionError

abbrev pub is_failed : Option VmError → Bool
is_failed none = false
is_failed (some _) = true

abbrev pub is_insufficient : Option VmError → Bool
is_insufficient (some insufficient_balance) = true
is_insufficient _ = false

abbrev pub is_creation : Option ℕ → Bool
is_creation none = true
is_creation (some _) = false

module _ {Trie : Type 0} where
  -- `useGas`
  unfoldable pub use_gas_of : Transition Trie → ℕ → Option (Transition Trie)
  use_gas_of t amount = if ltb t.gas amount then none else some (record t { gas = t.gas - amount })

  abbrev pub bought :
      Message → Transition Trie → ℤ → Option ℕ → Transition Trie × Option TransitionError
  bought m t cost none = (t, some gas_limit_reached)
  bought m t cost (some pool) = (
    record {
      state = sub_balance t.state m.sender cost;
      pool = pool;
      gas = (t.gas + m.gas) % (2 ^ 64);
      initial_gas = m.gas;
    },
    none,
  )

  -- `buyGas`
  unfoldable pub buy_gas : Message → Transition Trie → Transition Trie × Option TransitionError
  buy_gas m t =
      let cost = pos m.gas *ℤ m.gas_price in
      let (s, balance) = get_balance t.state m.sender in
      if ltb_ℤ balance cost
      then (record t { state = s }, some insufficient_balance_for_gas)
      else bought m (record t { state = s }) cost (sub_gas t.pool m.gas)

  -- `preCheck`
  unfoldable pub pre_check : Message → Transition Trie → Transition Trie × Option TransitionError
  unfolding buy_gas
  pre_check m t =
      if m.check_nonce
      then (let (s, nonce) = get_nonce t.state m.sender in
          if ltb nonce m.nonce
          then (record t { state = s }, some nonce_too_high)
          else (if ltb m.nonce nonce
              then (record t { state = s }, some nonce_too_low)
              else buy_gas m (record t { state = s })))
      else buy_gas m t

  -- `gasUsed`
  unfoldable pub gas_used : Transition Trie → ℕ
  gas_used t = (2 ^ 64 + t.initial_gas - t.gas) % (2 ^ 64)

  -- The refund counter, at most half of the used gas.
  unfoldable pub capped_refund : Transition Trie → ℕ
  capped_refund t =
      let half = gas_used t / 2 in if ltb t.state.refund half then t.state.refund else half

  -- `refundGas`
  unfoldable pub refund_gas : Message → Transition Trie → Option (Transition Trie)
  unfolding capped_refund
  refund_gas m t =
      let gas = (t.gas + capped_refund t) % (2 ^ 64) in
      add_gas t.pool gas >>= λ pool. some (record t {
        state = add_balance t.state m.sender (pos gas *ℤ m.gas_price);
        pool = pool;
        gas = gas;
      })

  -- The run of a message: a creation, or a call after the nonce of the sender is raised.
  unfoldable pub run_message :
      Evm Trie → Message → Option ℕ → Transition Trie → Option (Called Trie)
  run_message evm m none t = create evm t.state m.sender m.data_bytes t.gas m.value
  run_message evm m (some recipient) t =
      let (s, nonce) = get_nonce t.state m.sender in
      call_contract evm (set_nonce s m.sender ((nonce + 1) % (2 ^ 64))) m.sender recipient
        m.data_bytes t.gas m.value

  abbrev pub stopped : Transition Trie → TransitionError → Finished Trie
  stopped t e = record { after = t; output = []; used_gas = 0; failed = false; error = some e }

  -- The refund, and the fee of the used gas for the coinbase.
  unfoldable pub pay_fees :
      Evm Trie → Message → List ℕ → Bool → Transition Trie → Option (Finished Trie)
  unfolding refund_gas
  pay_fees evm m output failed t = refund_gas m t >>= λ t'. some (record {
    after = record t' {
      state = add_balance t'.state evm.coinbase (pos (gas_used t') *ℤ m.gas_price);
    };
    output = output;
    used_gas = gas_used t';
    failed = failed;
    error = none;
  })

  -- What follows the run.
  unfoldable pub settle :
      Evm Trie → Message → Transition Trie → Called Trie → Option (Finished Trie)
  unfolding pay_fees
  settle evm m t r =
      let t' = record t { state = r.state; gas = r.gas } in
      if is_insufficient r.error
      then some (stopped t' (vm_error insufficient_balance))
      else pay_fees evm m r.output (is_failed r.error) t'

  abbrev pub run_with_gas :
      Evm Trie → Message → Transition Trie → Option (Transition Trie) → Option (Finished Trie)
  run_with_gas evm m t none = some (stopped t (vm_error out_of_gas))
  run_with_gas evm m t (some t') = run_message evm m m.recipient t' >>= settle evm m t'

  abbrev pub after_check :
      Evm Trie → Message → Transition Trie × Option TransitionError → Option (Finished Trie)
  after_check evm m (t, some e) = some (stopped t e)
  after_check evm m (t, none) =
      run_with_gas evm m t (intrinsic_gas m.data_bytes (is_creation m.recipient) >>= use_gas_of t)

  -- `TransitionDb`
  unfoldable pub transition_db : Evm Trie → Message → Transition Trie → Option (Finished Trie)
  unfolding pre_check run_message settle
  transition_db evm m t = after_check evm m (pre_check m t)

  -- `NewStateTransition` and `ApplyMessage`
  unfoldable pub apply_message : Evm Trie → Message → StateDb Trie → ℕ → Option (Finished Trie)
  unfolding transition_db
  apply_message evm m s pool =
      transition_db evm m (record { state = s; pool = pool; gas = 0; initial_gas = 0 })
