-- ===== src/TxPool/Stale.antt =====
-- `txPricedList` of core/tx_list.go: its heap loses one element for each `heap.Pop`, so that the rounds of
-- its loops are enough.
use kkchain.Base.{
  ℕ, zero, suc, ◌+◌, ◌-◌, ◌*◌, ◌≤◌, List, [], ◌∷◌, Option, none, some, false, not, ◌||◌, ◌&&◌, ltb,
  leb, if◌then◌else◌, Bool-cases, length, take, get_elem?, set_nth, ◌≡◌, refl, ap, ◌∙◌, inl, inr,
  arith, ℤ, pos, ◌-ℤ◌,
}
use kkchain.Pool.SortedMap.{Transaction}
use kkchain.TxPool.Priced.{
  TxLookup, on_both, less_at, swap_at, down, pop_heap, is_stale, drop_stale,
}

length-set_nth :
    (n : ℕ) (x : Transaction) (xs : List Transaction) → length (set_nth n x xs) ≡ length xs
unfolding set_nth
length-set_nth n x [] = refl
length-set_nth zero x (y ∷ ys) = refl
length-set_nth (suc n) x (y ∷ ys) = ap suc (length-set_nth n x ys)

length-swap_at : (h : List Transaction) (i j : ℕ) → length (swap_at h i j) ≡ length h
unfolding swap_at
length-swap_at h i j = go (get_elem? h i) (get_elem? h j)
  where
    go :
        (o r : Option Transaction)
        → length (on_both h (λ s t. set_nth i t (set_nth j s h)) o r) ≡ length h
    go (some s) (some t) = length-set_nth i t (set_nth j s h) ∙ length-set_nth j s h
    go none r = refl
    go (some s) none = refl

length-down : (levels : ℕ) (h : List Transaction) (i n : ℕ) → length (down levels h i n) ≡ length h
unfolding down
length-down zero h i n = refl
length-down (suc levels) h i n =
    let left = 2 * i + 1 in
    let child = if ltb (left + 1) n && less_at h (left + 1) left then left + 1 else left in
    elim (Bool-cases (leb n left || not (less_at h child i))) [
      | inl x ↦ rw x refl
      | inr x ↦ rw x (length-down levels (swap_at h i child) child n ∙ length-swap_at h i child)
    ]

length-take : (n : ℕ) (xs : List Transaction) → n ≤ length xs → length (take n xs) ≡ n
length-take zero [] h = refl
length-take zero (x ∷ xs) h = refl
length-take (suc n) [] h = absurd (omega (arith, h))
length-take (suc n) (x ∷ xs) h = ap suc (length-take n xs (omega (arith, h)))

pub length-pop_heap : (h : List Transaction) → length (pop_heap h) ≡ length h - 1
unfolding pop_heap
length-pop_heap h =
    let n = length h - 1 in
    let same = length-down n (swap_at h 0 n) 0 n ∙ length-swap_at h 0 n in
    length-take n (down n (swap_at h 0 n) 0 n) (omega (arith, same))

abbrev pub Settled : TxLookup → List Transaction → Type 0
Settled all [] = Unit {0}
Settled all (t ∷ _) = is_stale all t ≡ false

-- With as many rounds as there are elements, no stale element is left in front.
pub drop_stale-Settled :
    (rounds : ℕ) (all : TxLookup) (ts : List Transaction) (stales : ℤ)
    → length ts ≤ rounds
    → Settled all (drop_stale rounds all (record { items = ts; stales = stales })).items
unfolding drop_stale
drop_stale-Settled zero all [] stales h = tt
drop_stale-Settled zero all (t ∷ ts) stales h = absurd (omega (arith, h))
drop_stale-Settled (suc rounds) all [] stales h = tt
drop_stale-Settled (suc rounds) all (t ∷ ts) stales h =
    let shorter = length-pop_heap (t ∷ ts) in
    let more =
      drop_stale-Settled rounds all (pop_heap (t ∷ ts)) (stales -ℤ pos 1)
        (omega (arith, h, shorter)) in
    elim (Bool-cases (is_stale all t)) [ inl x ↦ rw x more | inr x ↦ rw x x ]
