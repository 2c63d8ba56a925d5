-- ===== src/Pool/Sorting.antt =====
-- Sorting by nonce of transactions that a range over a `txSortedMap` visits in any order.
use kkchain.Base.{
  ℕ, zero, suc, List, [], ◌∷◌, true, false, ltb, Bool-cases, ◌≡◌, ◌≢◌, refl, ap, ◌∙◌, inl, inr,
  arith,
}
use kkchain.Pool.SortedMap.{Transaction, values, insert_by_nonce, sort_by_nonce, insert_at, shuffle}
use kkchain.Pool.Entries.{Above, Ascending, sort_by_nonce-values}

-- No transaction of the list has the nonce.
abbrev Absent : ℕ → List Transaction → Type 0
Absent n [] = Unit {0}
Absent n (t ∷ ts) = (t.nonce ≢ n) × Absent n ts

Distinct : List Transaction → Type 0
Distinct [] = Unit {0}
Distinct (t ∷ ts) = Absent t.nonce ts × Distinct ts

insert_by_nonce-swap :
    (x y : Transaction) (ts : List Transaction)
    → x.nonce ≢ y.nonce
    → insert_by_nonce x (insert_by_nonce y ts) ≡ insert_by_nonce y (insert_by_nonce x ts)
unfolding insert_by_nonce
insert_by_nonce-swap x y [] d = elim (Bool-cases (ltb x.nonce y.nonce)) [
  | inl l ↦ let r : ltb y.nonce x.nonce ≡ false = ground (arith, l) in rw (l, r) refl
  | inr l ↦ let r : ltb y.nonce x.nonce ≡ true = ground (arith, l, d) in rw (l, r) refl
]
insert_by_nonce-swap x y (t ∷ ts) d = ground (arith, d, insert_by_nonce-swap x y ts d)

sort_by_nonce-insert_at :
    (place : ℕ) (x : Transaction) (ts : List Transaction)
    → Absent x.nonce ts
    → sort_by_nonce (insert_at place x ts) ≡ insert_by_nonce x (sort_by_nonce ts)
unfolding sort_by_nonce insert_at
sort_by_nonce-insert_at place x [] a = refl
sort_by_nonce-insert_at zero x (t ∷ ts) a = refl
sort_by_nonce-insert_at (suc place) x (t ∷ ts) a =
    ap (insert_by_nonce t) (sort_by_nonce-insert_at place x ts a.1)
    ∙ insert_by_nonce-swap t x (sort_by_nonce ts) a.0

insert_at-Absent :
    (n place : ℕ) (x : Transaction) (ts : List Transaction)
    → x.nonce ≢ n
    → Absent n ts
    → Absent n (insert_at place x ts)
unfolding insert_at
insert_at-Absent n place x [] d a = (d, tt)
insert_at-Absent n zero x (t ∷ ts) d a = (d, a)
insert_at-Absent n (suc place) x (t ∷ ts) d a = (a.0, insert_at-Absent n place x ts d a.1)

shuffle-Absent :
    (n : ℕ) (order : List ℕ) (ts : List Transaction) → Absent n ts → Absent n (shuffle order ts)
unfolding shuffle
shuffle-Absent n order [] a = tt
shuffle-Absent n [] (t ∷ ts) a = (a.0, shuffle-Absent n [] ts a.1)
shuffle-Absent n (place ∷ order) (t ∷ ts) a =
    insert_at-Absent n place t (shuffle order ts) a.0 (shuffle-Absent n order ts a.1)

sort-shuffle :
    (order : List ℕ) (ts : List Transaction)
    → Distinct ts
    → sort_by_nonce (shuffle order ts) ≡ sort_by_nonce ts
unfolding shuffle sort_by_nonce Distinct
sort-shuffle order [] d = refl
sort-shuffle [] (t ∷ ts) d = ap (insert_by_nonce t) (sort-shuffle [] ts d.1)
sort-shuffle (place ∷ order) (t ∷ ts) d =
    sort_by_nonce-insert_at place t (shuffle order ts) (shuffle-Absent t.nonce order ts d.0)
    ∙ ap (insert_by_nonce t) (sort-shuffle order ts d.1)

Above-Absent :
    (n : ℕ) (es : List (ℕ × Transaction)) → Above n es → Ascending es → Absent n (values es)
Above-Absent n [] a b = tt
Above-Absent n (e ∷ es) a b = (λ h. ground (arith, h, a.0, b.0), Above-Absent n es a.1 b.2)

Ascending-Distinct : (es : List (ℕ × Transaction)) → Ascending es → Distinct (values es)
unfolding Distinct
Ascending-Distinct [] a = tt
Ascending-Distinct (e ∷ es) a = (rw a.0 (Above-Absent e.0 es a.1 a.2), Ascending-Distinct es a.2)

pub sort_by_nonce-shuffle :
    (order : List ℕ) (es : List (ℕ × Transaction))
    → Ascending es
    → sort_by_nonce (shuffle order (values es)) ≡ values es
sort_by_nonce-shuffle order es a =
    sort-shuffle order (values es) (Ascending-Distinct es a) ∙ sort_by_nonce-values es a
