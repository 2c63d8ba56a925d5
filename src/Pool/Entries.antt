-- ===== src/Pool/Entries.antt =====
-- The entries of a `txSortedMap` by ascending nonce, under the operations on them.
use kkchain.Base.{
  ℕ, ◌≤◌, ◌<◌, List, [], ◌∷◌, Option, none, some, Bool, true, false, ◌==◌, ltb, leb, Bool-cases,
  ◌≡◌, refl, ap, sym, ◌∙◌, inl, inr, arith,
}
use kkchain.Pool.SortedMap.{
  Transaction, find_entry, put_entry, delete_entry, keys, values, heap_push, heap_init, heap_remove,
  push_if_new, select, insert_by_nonce, sort_by_nonce,
}

-- All keys are above a number.
abbrev pub Above : ℕ → List (ℕ × Transaction) → Type 0
Above n [] = Unit {0}
Above n (e ∷ es) = (n < e.0) × Above n es

-- Ascending keys, each the nonce of its transaction.
abbrev pub Ascending : List (ℕ × Transaction) → Type 0
Ascending [] = Unit {0}
Ascending (e ∷ es) = (e.1.nonce ≡ e.0) × Above e.0 es × Ascending es

pub Above-mono : (m n : ℕ) (es : List (ℕ × Transaction)) → m ≤ n → Above n es → Above m es
Above-mono m n [] h a = tt
Above-mono m n (e ∷ es) h a = (omega (arith, h, a.0), Above-mono m n es h a.1)

pub find_entry-Above :
    (n k : ℕ) (es : List (ℕ × Transaction)) → n ≤ k → Above k es → find_entry n es ≡ none
unfolding find_entry
find_entry-Above n k [] h a = refl
find_entry-Above n k (e ∷ es) h a = ground (arith, h, a.0, find_entry-Above n k es h a.1)

pub put_entry-Above :
    (j n : ℕ) (tx : Transaction) (es : List (ℕ × Transaction))
    → j < n
    → Above j es
    → Above j (put_entry n tx es)
unfolding put_entry
put_entry-Above j n tx [] h a = (h, tt)
put_entry-Above j n tx (e ∷ es) h a = elim (Bool-cases (e.0 == n)) [
  | inl x ↦ rw x (h, a.1)
  | inr x ↦ elim (Bool-cases (ltb n e.0)) [
    | inl y ↦ rw (x, y) (h, a)
    | inr y ↦ rw (x, y) (a.0, put_entry-Above j n tx es h a.1)
  ]
]

pub put_entry-Ascending :
    (tx : Transaction) (es : List (ℕ × Transaction))
    → Ascending es
    → Ascending (put_entry tx.nonce tx es)
unfolding put_entry
put_entry-Ascending tx [] a = (refl, tt, tt)
put_entry-Ascending tx (e ∷ es) a = elim (Bool-cases (e.0 == tx.nonce)) [
  | inl x ↦
      let same : e.0 ≡ tx.nonce = ground (arith, x) in
      rw x (refl, Above-mono tx.nonce e.0 es (omega (arith, same)) a.1, a.2)
  | inr x ↦ elim (Bool-cases (ltb tx.nonce e.0)) [
    | inl y ↦
        let low : tx.nonce < e.0 = ground (arith, y) in
        rw (x, y) (refl, (low, Above-mono tx.nonce e.0 es (omega (arith, low)) a.1), a)
    | inr y ↦
        rw (x, y)
          (
            a.0,
            put_entry-Above e.0 tx.nonce tx es (ground (arith, x, y)) a.1,
            put_entry-Ascending tx es a.2,
          )
  ]
]

heap_push-low :
    (n : ℕ) (es : List (ℕ × Transaction)) → Above n es → heap_push n (keys es) ≡ n ∷ keys es
unfolding heap_push
heap_push-low n [] a = refl
heap_push-low n (e ∷ es) a = ground (arith, a.0)

push_past :
    (n k : ℕ) (o : Option Transaction) (ks : List ℕ)
    → leb n k ≡ false
    → push_if_new n o (k ∷ ks) ≡ k ∷ push_if_new n o ks
unfolding heap_push
push_past n k none ks h = rw h refl
push_past n k (some _) ks h = refl

-- A new key goes into the heap where the entry goes into the map.
pub keys-put_entry :
    (n : ℕ) (tx : Transaction) (es : List (ℕ × Transaction))
    → Ascending es
    → keys (put_entry n tx es) ≡ push_if_new n (find_entry n es) (keys es)
unfolding put_entry find_entry heap_push
keys-put_entry n tx [] a = refl
keys-put_entry n tx (e ∷ es) a = elim (Bool-cases (e.0 == n)) [
  | inl x ↦ let same : e.0 ≡ n = ground (arith, x) in rw x (ap (λ (k : ℕ). k ∷ keys es) (sym same))
  | inr x ↦ elim (Bool-cases (ltb n e.0)) [
    | inl y ↦
        let gone = find_entry-Above n e.0 es (ground (arith, y)) a.1 in
        let le : leb n e.0 ≡ true = ground (arith, y) in rw (x, y, gone, le) refl
    | inr y ↦
        let le : leb n e.0 ≡ false = ground (arith, x, y) in
        rw (x, y)
          (ap (λ (ks : List ℕ). e.0 ∷ ks) (keys-put_entry n tx es a.2)
            ∙ sym (push_past n e.0 (find_entry n es) (keys es) le))
  ]
]

pub delete_entry-Above :
    (j n : ℕ) (es : List (ℕ × Transaction)) → Above j es → Above j (delete_entry n es)
unfolding delete_entry
delete_entry-Above j n [] a = tt
delete_entry-Above j n (e ∷ es) a = elim (Bool-cases (e.0 == n)) [
  | inl x ↦ rw x a.1
  | inr x ↦ rw x (a.0, delete_entry-Above j n es a.1)
]

pub delete_entry-Ascending :
    (n : ℕ) (es : List (ℕ × Transaction)) → Ascending es → Ascending (delete_entry n es)
unfolding delete_entry
delete_entry-Ascending n [] a = tt
delete_entry-Ascending n (e ∷ es) a = elim (Bool-cases (e.0 == n)) [
  | inl x ↦ rw x a.2
  | inr x ↦ rw x (a.0, delete_entry-Above e.0 n es a.1, delete_entry-Ascending n es a.2)
]

-- A deletion from the map, and the removal from the heap.
pub keys-delete_entry :
    (n : ℕ) (es : List (ℕ × Transaction)) → keys (delete_entry n es) ≡ heap_remove n (keys es)
unfolding delete_entry heap_remove
keys-delete_entry n [] = refl
keys-delete_entry n (e ∷ es) = elim (Bool-cases (e.0 == n)) [
  | inl x ↦ rw x refl
  | inr x ↦ rw x (ap (λ (ks : List ℕ). e.0 ∷ ks) (keys-delete_entry n es))
]

select-Above :
    (j : ℕ) (f : Transaction → Bool) (es : List (ℕ × Transaction))
    → Above j es
    → Above j (select f es)
unfolding select
select-Above j f [] a = tt
select-Above j f (e ∷ es) a = elim (Bool-cases (f e.1)) [
  | inl x ↦ rw x (a.0, select-Above j f es a.1)
  | inr x ↦ rw x (select-Above j f es a.1)
]

pub select-Ascending :
    (f : Transaction → Bool) (es : List (ℕ × Transaction)) → Ascending es → Ascending (select f es)
unfolding select
select-Ascending f [] a = tt
select-Ascending f (e ∷ es) a = elim (Bool-cases (f e.1)) [
  | inl x ↦ rw x (a.0, select-Above e.0 f es a.1, select-Ascending f es a.2)
  | inr x ↦ rw x (select-Ascending f es a.2)
]

pub heap_init-keys : (es : List (ℕ × Transaction)) → Ascending es → heap_init (keys es) ≡ keys es
unfolding heap_init
heap_init-keys [] a = refl
heap_init-keys (e ∷ es) a = ap (heap_push e.0) (heap_init-keys es a.2) ∙ heap_push-low e.0 es a.1

-- The transactions in the order of their keys are sorted already.
insert_by_nonce-low :
    (e : ℕ × Transaction) (es : List (ℕ × Transaction))
    → Ascending (e ∷ es)
    → insert_by_nonce e.1 (values es) ≡ values (e ∷ es)
unfolding insert_by_nonce
insert_by_nonce-low e [] a = refl
insert_by_nonce-low e (f ∷ es) a = ground (arith, a.0, a.1.0, a.2.0)

pub sort_by_nonce-values :
    (es : List (ℕ × Transaction)) → Ascending es → sort_by_nonce (values es) ≡ values es
unfolding sort_by_nonce
sort_by_nonce-values [] a = refl
sort_by_nonce-values (e ∷ es) a =
    ap (insert_by_nonce e.1) (sort_by_nonce-values es a.2) ∙ insert_by_nonce-low e es a
