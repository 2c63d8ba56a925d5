-- ===== src/Transition/Gas.antt =====
-- The intrinsic gas of a message, and the gas pool of a block.
use kkchain.Base.{
  ℕ, ◌+◌, ◌-◌, ◌*◌, ◌≤◌, List, [], ◌∷◌, Option, none, some, Bool, true, false, if◌then◌else◌, ltb,
  length, ◌>>=◌, Bool-cases, ◌≡◌, refl, inl, inr, arith,
}
use kkchain.Transition.Defs.{
  max_uint64, tx_gas_contract_creation, tx_data_non_zero_gas, tx_data_zero_gas, non_zero_count,
  charge, data_gas, intrinsic_gas, add_gas, sub_gas,
}

-- A gas amount, where it is a uint64.
abbrev pub fitting : ℕ → Option ℕ
fitting total = if ltb max_uint64 total then none else some total

charge-non_zero :
    (gas n : ℕ)
    → gas ≤ max_uint64
    → charge gas tx_data_non_zero_gas n ≡ fitting (gas + n * tx_data_non_zero_gas)
unfolding charge
charge-non_zero gas n h = ground arith

charge-zero :
    (gas n : ℕ)
    → gas ≤ max_uint64
    → charge gas tx_data_zero_gas n ≡ fitting (gas + n * tx_data_zero_gas)
unfolding charge
charge-zero gas n h = ground arith

charge_twice :
    (gas m n : ℕ)
    → gas ≤ max_uint64
    → (charge gas tx_data_non_zero_gas m >>= λ g. charge g tx_data_zero_gas n)
      ≡ fitting (gas + m * tx_data_non_zero_gas + n * tx_data_zero_gas)
charge_twice gas m n h = elim (Bool-cases (ltb max_uint64 (gas + m * tx_data_non_zero_gas))) [
  | inl t ↦ rw (charge-non_zero gas m h, t) (ground (arith, t))
  | inr t ↦
      rw (charge-non_zero gas m h, t)
        (charge-zero (gas + m * tx_data_non_zero_gas) n (ground (arith, t)))
]

-- The intrinsic gas of a message is 53000 for a creation and 0 otherwise, and 68 for each byte that
-- is not zero and 4 for each that is; it is out of gas exactly when that is above MaxUint64.
pub intrinsic_gas_lem :
    (bytes : List ℕ) (creation : Bool)
    → let base = if creation then tx_gas_contract_creation else 0 in
      let nz = non_zero_count bytes in
      intrinsic_gas bytes creation ≡ fitting (base + nz * 68 + (length bytes - nz) * 4)
unfolding intrinsic_gas data_gas non_zero_count
intrinsic_gas_lem [] true = refl
intrinsic_gas_lem [] false = refl
intrinsic_gas_lem (b ∷ bs) true = charge_twice 53000 _ _ (omega arith)
intrinsic_gas_lem (b ∷ bs) false = charge_twice 0 _ _ (omega arith)

-- Gas that was taken from a pool can be put back, up to what was taken, without a panic.
pub add_gas-sub_gas :
    (pool amount back rest : ℕ)
    → pool ≤ max_uint64
    → sub_gas pool amount ≡ some rest
    → back ≤ amount
    → add_gas rest back ≡ some (pool - (amount - back))
unfolding add_gas sub_gas
add_gas-sub_gas pool amount back rest h e b = ground arith
