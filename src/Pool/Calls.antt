-- ===== src/Pool/Calls.antt =====
-- `Ready` and `Flatten` of core/tx_list.go, and the operations of a `txSortedMap` all together.
use kkchain.Base.{
  some_inj, ℕ, ◌+◌, ◌%◌, ◌^◌, ◌≤◌, ◌<◌, List, [], ◌∷◌, ◌++◌, map, Option, none, some, Bool, true,
  false, ◌==◌, if◌then◌else◌, ltb, get_elem?, ◌>>=◌, bind_some, Bool-cases, ◌≡◌, ◌≢◌, ◌⊎◌, refl, ap,
  sym, subst, ◌∙◌, inl, inr, arith,
}
use kkchain.Pool.SortedMap.{
  Transaction, TxSortedMap, keys, values, put, forward, filter_map, cap, remove, ready_loop,
  ready_from, ready, sorted_cache, flatten,
}
use kkchain.Pool.Entries.{Above, Ascending}
use kkchain.Pool.Sorting.{sort_by_nonce-shuffle}
use kkchain.Pool.Loops.{run, past_run, ready_loop-run}
use kkchain.Pool.Upkeep.{Inv, forward_lem, put-Inv}
use kkchain.Pool.Operations.{filter_map-Inv, remove-Inv, cap_lem}

past_run-Above : (j n : ℕ) (es : List (ℕ × Transaction)) → Above j es → Above j (past_run n es)
unfolding past_run
past_run-Above j n [] a = tt
past_run-Above j n (e ∷ es) a = elim (Bool-cases (e.0 == n)) [
  | inl x ↦ rw x (past_run-Above j ((n + 1) % (2 ^ 64)) es a.1)
  | inr x ↦ rw x a
]

past_run-Ascending :
    (n : ℕ) (es : List (ℕ × Transaction)) → Ascending es → Ascending (past_run n es)
unfolding past_run
past_run-Ascending n [] a = tt
past_run-Ascending n (e ∷ es) a = elim (Bool-cases (e.0 == n)) [
  | inl x ↦ rw x (past_run-Ascending ((n + 1) % (2 ^ 64)) es a.2)
  | inr x ↦ rw x a
]

-- Transactions with successive nonces from `n` on, and entries that do not go on with the next.
abbrev pub IsRun : ℕ → List Transaction → List (ℕ × Transaction) → Type 0
IsRun n [] [] = Unit {0}
IsRun n [] (e ∷ es) = e.1.nonce ≢ n
IsRun n (tx ∷ txs) es = (tx.nonce ≡ n) × IsRun ((n + 1) % (2 ^ 64)) txs es

run-IsRun :
    (n : ℕ) (es : List (ℕ × Transaction)) → Ascending es → IsRun n (run n es) (past_run n es)
unfolding run past_run
run-IsRun n [] a = tt
run-IsRun n (e ∷ es) a = elim (Bool-cases (e.0 == n)) [
  | inl x ↦ rw x (ground (arith, x, a.0), run-IsRun ((n + 1) % (2 ^ 64)) es a.2)
  | inr x ↦ rw x (λ h. differ n e x a.0 h)
]
  where
    differ :
        (m : ℕ) (f : ℕ × Transaction) → (f.0 == m) ≡ false → f.1.nonce ≡ f.0 → f.1.nonce ≡ m → ⊥
    differ m f x a h = ground (arith, x, a, h)

run-append : (n : ℕ) (es : List (ℕ × Transaction)) → values es ≡ run n es ++ values (past_run n es)
unfolding run past_run
run-append n [] = refl
run-append n (e ∷ es) = elim (Bool-cases (e.0 == n)) [
  | inl x ↦ rw x (ap (λ (r : List Transaction). e.1 ∷ r) (run-append ((n + 1) % (2 ^ 64)) es))
  | inr x ↦ rw x refl
]

-- What Ready takes from the front of a map.
pub record Readied (m : TxSortedMap) (start : ℕ) : Type 0 where
  pub taken : List Transaction
  pub returned : (ready m start).1 ≡ map some taken
  pub parts : values m.items ≡ taken ++ values (ready m start).0.items
  pub succeeds :
      (tx : Transaction)
      → get_elem? (values m.items) 0 ≡ some tx
      → tx.nonce ≤ start
      → IsRun tx.nonce taken (ready m start).0.items
  pub waits :
      (tx : Transaction) → get_elem? (values m.items) 0 ≡ some tx → start < tx.nonce → taken ≡ []
  pub inv : Inv (ready m start).0

-- The three cases of Ready.
ready-none : (m : TxSortedMap) (start : ℕ) → m.items ≡ [] → Inv m → ready m start ≡ (m, [])
unfolding ready
ready-none m start e v = ap (ready_from m start) (v.indexed ∙ ap keys e)

ready-some :
    (m : TxSortedMap) (start : ℕ) (e : ℕ × Transaction) (es : List (ℕ × Transaction))
    → m.items ≡ e ∷ es
    → Inv m
    → ready m start ≡ (
        if ltb start e.0 then (m, []) else (
          record {
            items = past_run e.0 m.items;
            index = keys (past_run e.0 m.items);
            cache = none;
          },
          map some (run e.0 m.items),
        ))
unfolding ready
ready-some m start e es h v =
    let loop : ready_loop e.0 (e.0 ∷ keys es) m.items
        ≡ (map some (run e.0 m.items), past_run e.0 m.items, keys (past_run e.0 m.items)) =
      ap (λ ks. ready_loop e.0 ks m.items) (ap keys (sym h)) ∙ ready_loop-run e.0 m.items in
    ap (ready_from m start) (v.indexed ∙ ap keys h) ∙ rw loop refl

Readied-of :
    (m : TxSortedMap) (start : ℕ) (taken : List Transaction) (m' : TxSortedMap)
    → ready m start ≡ (m', map some taken)
    → values m.items ≡ taken ++ values m'.items
    → ((tx : Transaction)
        → get_elem? (values m.items) 0 ≡ some tx
        → tx.nonce ≤ start
        → IsRun tx.nonce taken m'.items)
    → ((tx : Transaction) → get_elem? (values m.items) 0 ≡ some tx → start < tx.nonce → taken ≡ [])
    → Inv m'
    → Readied m start
Readied-of m start taken m' e p s w v = record {
  taken = taken;
  returned = ap (λ r. r.1) e;
  parts = rw e p;
  succeeds = rw e s;
  waits = w;
  inv = rw e v;
}

no_first :
    {tx : Transaction} (xs : List (ℕ × Transaction))
    → xs ≡ []
    → get_elem? (values xs) 0 ≡ some tx
    → ⊥
no_first {tx} xs h x = let y = subst (λ zs. get_elem? (values zs) 0 ≡ some tx) h x in cc

first_nonce :
    (xs : List (ℕ × Transaction)) (e : ℕ × Transaction) (es : List (ℕ × Transaction))
    (tx : Transaction)
    → xs ≡ e ∷ es
    → get_elem? (values xs) 0 ≡ some tx
    → e.1.nonce ≡ e.0
    → e.0 ≡ tx.nonce
first_nonce xs e es tx h x n =
    let y = subst (λ zs. get_elem? (values zs) 0 ≡ some tx) h x in
    sym n ∙ ap (λ (t : Transaction). t.nonce) (some_inj y)

too_high :
    (start : ℕ) (xs : List (ℕ × Transaction)) (e : ℕ × Transaction) (es : List (ℕ × Transaction))
    (tx : Transaction)
    → xs ≡ e ∷ es
    → get_elem? (values xs) 0 ≡ some tx
    → e.1.nonce ≡ e.0
    → ltb start e.0 ≡ true
    → tx.nonce ≤ start
    → ⊥
too_high start xs e es tx h x n l le = ground (arith, first_nonce xs e es tx h x n, l, le)

too_low :
    (start : ℕ) (xs : List (ℕ × Transaction)) (e : ℕ × Transaction) (es : List (ℕ × Transaction))
    (tx : Transaction)
    → xs ≡ e ∷ es
    → get_elem? (values xs) 0 ≡ some tx
    → e.1.nonce ≡ e.0
    → ltb start e.0 ≡ false
    → start < tx.nonce
    → ⊥
too_low start xs e es tx h x n l lt = ground (arith, first_nonce xs e es tx h x n, l, lt)

-- On a well-formed map, Ready returns the longest run of successive nonces from the front when the
-- first nonce is not above the start, and nothing otherwise; the rest stays in order, and the map is
-- well formed.
pub ready_lem : (m : TxSortedMap) (start : ℕ) → Inv m → Readied m start
ready_lem m start v = go m.items refl
  where
    go : (es : List (ℕ × Transaction)) → m.items ≡ es → Readied m start
    go [] h =
        Readied-of m start [] m (ready-none m start h v) refl
          (λ tx x l. absurd (no_first m.items h x)) (λ tx x l. refl) v
    go (e ∷ es) h =
        let r = ready-some m start e es h v in
        let a : Ascending (e ∷ es) = subst Ascending h v.ascending in
        elim (Bool-cases (ltb start e.0)) [
          | inl l ↦
              Readied-of m start [] m (r ∙ rw l refl) refl
                (λ tx x le. absurd (too_high start m.items e es tx h x a.0 l le)) (λ tx x lt. refl)
                v
          | inr l ↦
              Readied-of m start (run e.0 m.items) _ (r ∙ rw l refl) (run-append e.0 m.items)
                (λ tx x le.
                  subst (λ n. IsRun n (run e.0 m.items) (past_run e.0 m.items))
                    (first_nonce m.items e es tx h x a.0) (run-IsRun e.0 m.items v.ascending))
                (λ tx x lt. absurd (too_low start m.items e es tx h x a.0 l lt))
                (record {
                  ascending = past_run-Ascending e.0 m.items v.ascending;
                  indexed = refl;
                  cached = inl refl;
                })
        ]

-- For a well-formed map, Flatten returns its transactions in the order of their nonces, from the cache
-- or not, in whatever order it ranges over the map.
pub flatten_lem :
    (order : List ℕ) (m : TxSortedMap)
    → Inv m
    → ((flatten order m).1 ≡ values m.items)
      × ((flatten order m).0.items ≡ m.items)
      × Inv (flatten order m).0
unfolding flatten
flatten_lem order m v = (
  same v.cached,
  refl,
  record { ascending = v.ascending; indexed = v.indexed; cached = inr (ap some (same v.cached)) },
)
  where
    same :
        (m.cache ≡ none) ⊎ (m.cache ≡ some (values m.items))
        → sorted_cache order m m.cache ≡ values m.items
    same (inl e) = ap (sorted_cache order m) e ∙ sort_by_nonce-shuffle order m.items v.ascending
    same (inr e) = ap (sorted_cache order m) e

pub data Op : Type 0 where
  puts : Transaction → Op
  forwards caps removes readies : ℕ → Op
  filters : (Transaction → Bool) → Op
  flattens : List ℕ → Op

unfoldable pub apply : Op → TxSortedMap → Option TxSortedMap
apply (puts tx) m = some (put m tx)
apply (forwards n) m = forward m n >>= λ r. some r.0
apply (caps n) m = cap m n >>= λ r. some r.0
apply (removes n) m = some (remove m n).0
apply (readies n) m = some (ready m n).0
apply (filters f) m = some (filter_map m f).0
apply (flattens order) m = some (flatten order m).0

-- From a well-formed map, no operation panics, and the map stays well formed: the heap has the
-- nonces of the map, each transaction stands under its nonce, and a cache is what Flatten returns.
pub apply-Inv :
    (op : Op) (m : TxSortedMap) → Inv m → (m' : TxSortedMap) × (apply op m ≡ some m') × Inv m'
unfolding apply
apply-Inv (puts tx) m v = (put m tx, refl, put-Inv m tx v)
apply-Inv (forwards n) m v =
    let f = forward_lem m n v in (f.result, bind_some _ f.returned refl, f.inv)
apply-Inv (caps n) m v = let c = cap_lem m n v in (c.result, bind_some _ c.returned refl, c.inv)
apply-Inv (removes n) m v = ((remove m n).0, refl, remove-Inv m n v)
apply-Inv (readies n) m v = ((ready m n).0, refl, (ready_lem m n v).inv)
apply-Inv (filters f) m v = ((filter_map m f).0, refl, filter_map-Inv m f v)
apply-Inv (flattens order) m v = ((flatten order m).0, refl, (flatten_lem order m v).2)
