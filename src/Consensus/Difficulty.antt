-- ===== src/Consensus/Difficulty.antt =====
-- `calcDifficultyFrontier` of consensus/pow/pow.go, and `Header` of core/types/block.go.
use kkchain.Base.{
  ℕ, ◌-◌, ◌/◌, ◌^◌, ◌≤◌, List, Bool, true, false, if◌then◌else◌, ◌≡◌, refl, arith, ℤ, pos, negsuc,
  ◌+ℤ◌, ◌-ℤ◌, ◌≤ℤ◌, ltb_ℤ, div_ℤ, pos_part, +ℤ_parts, -ℤ_parts,
}

pub record Header : Type 0 where
  pub parent_hash : ℕ
  pub miner : ℕ
  pub state_root : ℕ
  pub tx_root : ℕ
  pub receipt_root : ℕ
  pub bloom : List ℕ
  pub difficulty : ℤ
  pub number : ℤ
  pub gas_limit : ℕ
  pub gas_used : ℕ
  pub time : ℤ
  pub extra : List ℕ
  pub mix_digest : ℕ
  pub nonce : ℕ

-- The constants of `calcDifficultyFrontier`
abbrev pub exp_diff_period : ℕ
exp_diff_period = 100000

abbrev pub difficulty_bound_divisor : ℕ
difficulty_bound_divisor = 2048

abbrev pub minimum_difficulty : ℤ
minimum_difficulty = pos 131072

abbrev pub duration_limit : ℤ
duration_limit = pos 13

-- `cmath.BigMax`
unfoldable pub big_max : ℤ → ℤ → ℤ
big_max x y = if ltb_ℤ x y then y else x

-- Up or down by a part of the old difficulty, and not below the minimum.
unfoldable pub adjusted : Bool → ℤ → ℤ
unfolding big_max
adjusted fast old =
    let adjust = div_ℤ old difficulty_bound_divisor in
    big_max (if fast then old +ℤ adjust else old -ℤ adjust) minimum_difficulty

-- `diff + 2^(periodCount-2)`, where the period count is above 1
unfoldable pub with_bomb : ℤ → ℤ → ℤ
unfolding big_max
with_bomb period diff =
    if ltb_ℤ (pos 1) period
    then big_max (diff +ℤ pos (2 ^ (pos_part period - 2))) minimum_difficulty
    else diff

unfoldable pub period_count : ℤ → ℤ
period_count number = div_ℤ (number +ℤ pos 1) exp_diff_period

-- `calcDifficultyFrontier`, which `CalcDifficulty` returns
unfoldable pub calc_difficulty_frontier : ℕ → Header → ℤ
unfolding adjusted with_bomb period_count
calc_difficulty_frontier time parent =
    with_bomb (period_count parent.number)
      (adjusted (ltb_ℤ (pos time -ℤ parent.time) duration_limit) parent.difficulty)

adjusted_least : (fast : Bool) (old : ℤ) → minimum_difficulty ≤ℤ adjusted fast old
unfolding adjusted big_max
adjusted_least fast old = ground arith

with_bomb_least :
    (period diff : ℤ) → minimum_difficulty ≤ℤ diff → minimum_difficulty ≤ℤ with_bomb period diff
unfolding with_bomb big_max
with_bomb_least period diff h = ground (arith, h)

-- The difficulty is never below the minimum.
pub minimum-calc_difficulty_frontier :
    (time : ℕ) (parent : Header) → minimum_difficulty ≤ℤ calc_difficulty_frontier time parent
unfolding calc_difficulty_frontier
minimum-calc_difficulty_frontier time parent =
    with_bomb_least (period_count parent.number) _ (adjusted_least _ parent.difficulty)

adjusted-mono :
    (x y : Bool) (old : ℤ) → pos 0 ≤ℤ old → (y ≡ true → x ≡ true) → adjusted y old ≤ℤ adjusted x old
unfolding adjusted big_max div_ℤ
adjusted-mono true true old n h = ground arith
adjusted-mono false false old n h = ground arith
adjusted-mono true false (pos old) n h =
    ground (arith, +ℤ_parts (pos old) (pos (old / 2048)), -ℤ_parts (pos old) (pos (old / 2048)))
adjusted-mono true false (negsuc old) n h = absurd (omega (arith, n))
adjusted-mono false true old n h = let e = h refl in cc

with_bomb-mono : (period x y : ℤ) → x ≤ℤ y → with_bomb period x ≤ℤ with_bomb period y
unfolding with_bomb big_max
with_bomb-mono period x y h = ground (
  arith,
  h,
  +ℤ_parts x (pos (2 ^ (pos_part period - 2))),
  +ℤ_parts y (pos (2 ^ (pos_part period - 2))),
)

earlier :
    (s t : ℕ) (p : ℤ)
    → s ≤ t
    → ltb_ℤ (pos t -ℤ p) duration_limit ≡ true
    → ltb_ℤ (pos s -ℤ p) duration_limit ≡ true
earlier s t p h e = ground (arith, h, e, -ℤ_parts (pos s) p, -ℤ_parts (pos t) p)

-- For a parent whose difficulty is not negative, a later block does not get a higher difficulty.
pub calc_difficulty_frontier-mono :
    (s t : ℕ) (parent : Header)
    → pos 0 ≤ℤ parent.difficulty
    → s ≤ t
    → calc_difficulty_frontier t parent ≤ℤ calc_difficulty_frontier s parent
unfolding calc_difficulty_frontier
calc_difficulty_frontier-mono s t parent n h = with_bomb-mono (period_count parent.number) _ _ (
    adjusted-mono (ltb_ℤ (pos s -ℤ parent.time) duration_limit)
      (ltb_ℤ (pos t -ℤ parent.time) duration_limit) parent.difficulty n (earlier s t parent.time h))
