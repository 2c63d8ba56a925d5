-- ===== src/TxPool/Lookup.antt =====
-- The entries of `txLookup` and of a `txSortedMap` after one is put, deleted or filtered out.
use kkchain.Base.{
  ℕ, zero, suc, ◌≤◌, ◌<◌, List, [], ◌∷◌, none, some, Bool, true, false, ◌==◌, if◌then◌else◌, ltb,
  Bool-cases, ◌≡◌, refl, ap, sym, subst, ◌∙◌, inl, inr, arith, get_elem?, some_inj,
}
use kkchain.Pool.SortedMap.{Transaction, find_entry, put_entry, delete_entry, select, values}
use kkchain.Pool.Entries.{
  Above, Above-mono, Ascending, find_entry-Above, put_entry-Above, delete_entry-Above,
}

-- Ascending keys.
abbrev pub Sorted : List (ℕ × Transaction) → Type 0
Sorted [] = Unit {0}
Sorted (e ∷ es) = Above e.0 es × Sorted es

pub put_entry-Sorted :
    (n : ℕ) (tx : Transaction) (es : List (ℕ × Transaction))
    → Sorted es
    → Sorted (put_entry n tx es)
unfolding put_entry
put_entry-Sorted n tx [] s = (tt, tt)
put_entry-Sorted n tx (e ∷ es) s = elim (Bool-cases (e.0 == n)) [
  | inl x ↦ let same : e.0 ≡ n = ground (arith, x) in rw x (subst (λ k. Above k es) same s.0, s.1)
  | inr x ↦ elim (Bool-cases (ltb n e.0)) [
    | inl y ↦
        let low : n < e.0 = ground (arith, y) in
        rw (x, y) ((low, Above-mono n e.0 es (omega (arith, low)) s.0), s)
    | inr y ↦
        let high : e.0 < n = ground (arith, x, y) in
        rw (x, y) (put_entry-Above e.0 n tx es high s.0, put_entry-Sorted n tx es s.1)
  ]
]

pub delete_entry-Sorted :
    (n : ℕ) (es : List (ℕ × Transaction)) → Sorted es → Sorted (delete_entry n es)
unfolding delete_entry
delete_entry-Sorted n [] s = tt
delete_entry-Sorted n (e ∷ es) s = elim (Bool-cases (e.0 == n)) [
  | inl x ↦ rw x s.1
  | inr x ↦ rw x (delete_entry-Above e.0 n es s.0, delete_entry-Sorted n es s.1)
]

pub find_entry-delete_entry :
    (n k : ℕ) (es : List (ℕ × Transaction))
    → Sorted es
    → find_entry k (delete_entry n es) ≡ (if n == k then none else find_entry k es)
unfolding find_entry delete_entry
find_entry-delete_entry n k [] s = ground arith
find_entry-delete_entry n k (e ∷ es) s =
    let rest = find_entry-delete_entry n k es s.1 in
    elim (Bool-cases (e.0 == n)) [
      | inl x ↦ elim (Bool-cases (n == k)) [
        | inl y ↦
            let low : k ≤ e.0 = ground (arith, x, y) in
            rw (x, y) (find_entry-Above k e.0 es low s.0)
        | inr y ↦ let z : (e.0 == k) ≡ false = ground (arith, x, y) in rw (x, y, z) refl
      ]
      | inr x ↦ elim (Bool-cases (e.0 == k)) [
        | inl z ↦ let y : (n == k) ≡ false = ground (arith, x, z) in rw (x, z, y) refl
        | inr z ↦ rw (x, z) rest
      ]
    ]

-- What stands behind an entry has another key.
pub behind :
    (e : ℕ × Transaction) (es : List (ℕ × Transaction)) (k : ℕ) (tx : Transaction)
    → Above e.0 es
    → find_entry k es ≡ some tx
    → (e.0 == k) ≡ false
behind e es k tx a h = elim (Bool-cases (e.0 == k)) [
  | inl x ↦ let n = find_entry-Above k e.0 es (ground (arith, x)) a in cc
  | inr x ↦ x
]

pub nonce-find_entry :
    (k : ℕ) (es : List (ℕ × Transaction)) (tx : Transaction)
    → Ascending es
    → find_entry k es ≡ some tx
    → tx.nonce ≡ k
unfolding find_entry
nonce-find_entry k [] tx a h = cc
nonce-find_entry k (e ∷ es) tx a h = elim (Bool-cases (e.0 == k)) [
  | inl x ↦
      let same : e.1 ≡ tx = some_inj (simp x at h) in
      ap (λ (t : Transaction). t.nonce) (sym same) ∙ a.0 ∙ ground (arith, x)
  | inr x ↦ nonce-find_entry k es tx a.2 (simp x at h)
]

-- A filter keeps entries only, and those that pass.
pub find_entry-select :
    (f : Transaction → Bool) (k : ℕ) (es : List (ℕ × Transaction)) (tx : Transaction)
    → Ascending es
    → find_entry k (select f es) ≡ some tx
    → (find_entry k es ≡ some tx) × (f tx ≡ true)
unfolding find_entry select
find_entry-select f k [] tx a h = cc
find_entry-select f k (e ∷ es) tx a h = elim (Bool-cases (f e.1)) [
  | inl y ↦ elim (Bool-cases (e.0 == k)) [
    | inl x ↦
        let same : e.1 ≡ tx = some_inj (simp (y, x) at h) in
        (rw x (ap some same), ap f (sym same) ∙ y)
    | inr x ↦ rw x (find_entry-select f k es tx a.2 (simp (y, x) at h))
  ]
  | inr y ↦
      let found = find_entry-select f k es tx a.2 (simp y at h) in
      let x = behind e es k tx a.1 found.0 in rw x found
]

pub get_elem?-select :
    (f : Transaction → Bool) (es : List (ℕ × Transaction)) (i : ℕ) (tx : Transaction)
    → Ascending es
    → get_elem? (values (select f es)) i ≡ some tx
    → (find_entry tx.nonce es ≡ some tx) × (f tx ≡ true)
unfolding find_entry select
get_elem?-select f [] i tx a h = cc
get_elem?-select f (e ∷ es) i tx a h = elim (Bool-cases (f e.1)) [
  | inl y ↦ picked y i (λ j g. get_elem?-select f es j tx a.2 g) (simp y at h)
  | inr y ↦ later (get_elem?-select f es i tx a.2 (simp y at h))
]
  where
    later :
        (find_entry tx.nonce es ≡ some tx) × (f tx ≡ true)
        → (find_entry tx.nonce (e ∷ es) ≡ some tx) × (f tx ≡ true)
    later found = let x = behind e es tx.nonce tx a.1 found.0 in rw x found

    picked :
        f e.1 ≡ true
        → (j : ℕ)
        → ((k : ℕ)
            → get_elem? (values (select f es)) k ≡ some tx
            → (find_entry tx.nonce es ≡ some tx) × (f tx ≡ true))
        → get_elem? (e.1 ∷ values (select f es)) j ≡ some tx
        → (find_entry tx.nonce (e ∷ es) ≡ some tx) × (f tx ≡ true)
    picked y zero more g =
        let same : e.1 ≡ tx = some_inj g in
        let nonces : e.1.nonce ≡ tx.nonce = ap (λ (t : Transaction). t.nonce) same in
        let x : (e.0 == tx.nonce) ≡ true = ground (arith, a.0, nonces) in
        rw x (g, ap f (sym same) ∙ y)
    picked y (suc j) more g = later (more j g)
