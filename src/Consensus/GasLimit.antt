-- ===== src/Consensus/GasLimit.antt =====
-- `CalcGasLimit` of core/validator.go, with the wrap-around of uint64.
use kkchain.Base.{ℕ, ◌+◌, ◌-◌, ◌/◌, ◌%◌, ◌^◌, ◌≤◌, if◌then◌else◌, ltb, ◌≡◌, arith}
use kkchain.Consensus.Difficulty.{Header}

-- params.GasLimitBoundDivisor, params.MinGasLimit and params.TargetGasLimit
abbrev pub gas_limit_bound_divisor : ℕ
gas_limit_bound_divisor = 1024

abbrev pub min_gas_limit : ℕ
min_gas_limit = 5000

abbrev pub target_gas_limit : ℕ
target_gas_limit = 4712388

-- The limit at the minimum at least, and raised towards the target from below it.
unfoldable pub toward_target : ℕ → ℕ → ℕ → ℕ
toward_target parent_limit decay limit =
    let least = if ltb limit min_gas_limit then min_gas_limit else limit in
    let up = (parent_limit + decay) % (2 ^ 64) in
    if ltb least target_gas_limit
    then (if ltb target_gas_limit up then target_gas_limit else up)
    else least

-- `CalcGasLimit`
unfoldable pub calc_gas_limit : Header → ℕ
unfolding toward_target
calc_gas_limit parent =
    let contrib = ((parent.gas_used + parent.gas_used / 2) % (2 ^ 64)) / gas_limit_bound_divisor in
    let decay = (parent.gas_limit / gas_limit_bound_divisor + 2 ^ 64 - 1) % (2 ^ 64) in
    toward_target parent.gas_limit decay ((parent.gas_limit + 2 ^ 64 - decay + contrib) % (2 ^ 64))

-- For a parent with a gas limit between the minimum and 2^63 - 1 that it did not exceed, the gas limit
-- of the next block is at least the minimum, and differs from the parent's by at most its 1024th part.
pub calc_gas_limit_lem :
    (parent : Header)
    → min_gas_limit ≤ parent.gas_limit
    → parent.gas_limit ≤ 9223372036854775807
    → parent.gas_used ≤ parent.gas_limit
    → (min_gas_limit ≤ calc_gas_limit parent)
      × (calc_gas_limit parent ≤ parent.gas_limit + parent.gas_limit / 1024)
      × (parent.gas_limit ≤ calc_gas_limit parent + parent.gas_limit / 1024)
unfolding calc_gas_limit toward_target
calc_gas_limit_lem parent h k u =
    let p = parent.gas_limit in
    let contrib = ((parent.gas_used + parent.gas_used / 2) % (2 ^ 64)) / 1024 in
    let decay = (p / 1024 + 2 ^ 64 - 1) % (2 ^ 64) in
    let d : decay + 1 ≡ p / 1024 = omega (arith, h, k) in
    let c : contrib ≤ p / 1024 + p / 2048 + 1 = omega (arith, h, k, u) in
    let l : (p + 2 ^ 64 - decay + contrib) % (2 ^ 64) ≡ p - decay + contrib =
      omega (arith, d, c, h, k) in
    rw l (ground (arith, d, c, h, k), ground (arith, d, c, h, k), ground (arith, d, c, h, k))
