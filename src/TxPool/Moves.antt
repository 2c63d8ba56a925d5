-- ===== src/TxPool/Moves.antt =====
-- What `Add` and `Remove` of a list of core/tx_list.go do to the nonces of an account.
use kkchain.Base.{
  ◌⊎◌, ℕ, List, [], Option, none, some, Bool, true, false, not, ◌==◌, if◌then◌else◌, ltb,
  Bool-cases, Option-cases, ◌≡◌, ◌≢◌, refl, ap, sym, subst, ◌∙◌, inl, inr, arith, get_elem?,
  some_inj, map, ◌∷◌,
}
use kkchain.Pool.SortedMap.{
  Transaction, TxSortedMap, find_entry, delete_entry, select, get, put, remove, remove_found,
}
use kkchain.Pool.Entries.{Ascending}
use kkchain.Pool.Upkeep.{Inv, put-Inv}
use kkchain.Pool.Operations.{items-filter_map, remove-Inv}
use kkchain.Pool.Limits.{find_entry-put_entry}
use kkchain.Pool.Filter.{drop_above-Inv}
use kkchain.Pool.TxList.{TxList, new_tx_list, is_refused, add, drop_above, remove_tx}
use kkchain.TxPool.Defs.{list_of}
use kkchain.TxPool.Complete.{Among, find_entry-split}
use kkchain.TxPool.Lookup.{Sorted, find_entry-delete_entry, find_entry-select, get_elem?-select}

-- The transaction of an account under a nonce.
abbrev pub place : Option TxList → ℕ → Option Transaction
place none n = none
place (some l) n = get l.txs n

abbrev pub OfList : Option TxList → Type 0
OfList none = Unit {0}
OfList (some l) = Inv l.txs

-- What Add returns and leaves.
pub record Added (o : Option TxList) (tx : Transaction) (r : TxList × Bool × Option Transaction)
    : Type 0 where
  pub inv : Inv r.0.txs
  pub accepted :
      r.1 ≡ true
      → (r.2 ≡ place o tx.nonce)
        × ((n : ℕ) → get r.0.txs n ≡ (if tx.nonce == n then some tx else place o n))
  pub refused : r.1 ≡ false → (n : ℕ) → get r.0.txs n ≡ place o n
  pub taken : r.1 ≡ false → place o tx.nonce ≢ none

get-list_of : (strict : Bool) (o : Option TxList) (n : ℕ) → get (list_of strict o).txs n ≡ place o n
unfolding list_of new_tx_list get find_entry
get-list_of strict none n = refl
get-list_of strict (some l) n = refl

list_of-Inv : (strict : Bool) (o : Option TxList) → OfList o → Inv (list_of strict o).txs
unfolding list_of new_tx_list
list_of-Inv strict none h = record { ascending = tt; indexed = refl; cached = inl refl }
list_of-Inv strict (some l) h = h

pub add-Added :
    (strict : Bool) (o : Option TxList) (tx : Transaction) (bump : ℕ)
    → OfList o
    → Added o tx (add (list_of strict o) tx bump)
unfolding add get put is_refused
add-Added strict o tx bump h =
    let l = list_of strict o in
    let v = list_of-Inv strict o h in
    elim (Bool-cases (is_refused tx bump (get l.txs tx.nonce))) [
      | inl r ↦ rw r (record {
        inv = v;
        accepted = λ e. cc;
        refused = λ e n. get-list_of strict o n;
        taken = λ e z. occupied (get l.txs tx.nonce) r (get-list_of strict o tx.nonce ∙ z);
      })
      | inr r ↦ rw r (record {
        inv = put-Inv l.txs tx v;
        accepted = λ e. (get-list_of strict o tx.nonce, λ n. after n);
        refused = λ e. cc;
        taken = λ e. cc;
      })
    ]
  where
    occupied : (x : Option Transaction) → is_refused tx bump x ≡ true → x ≡ none → ⊥
    occupied x r z = let y = subst (λ k. is_refused tx bump k ≡ true) z r in cc

    after :
        (n : ℕ)
        → get (put (list_of strict o).txs tx) n ≡ (if tx.nonce == n then some tx else place o n)
    after n =
        find_entry-put_entry tx.nonce n tx (list_of strict o).txs.items
        ∙ ap (λ x. if tx.nonce == n then some tx else x) (get-list_of strict o n)

-- What Remove returns and leaves.
pub record Dropped (l : TxList) (tx : Transaction) (r : TxList × Bool × List Transaction)
    : Type 0 where
  pub inv : Inv r.0.txs
  pub kept :
      (n : ℕ) (t : Transaction) → get r.0.txs n ≡ some t → (get l.txs n ≡ some t) × (n ≢ tx.nonce)
  pub invalids :
      (i : ℕ) (t : Transaction)
      → get_elem? r.2 i ≡ some t
      → (get l.txs t.nonce ≡ some t) × (get r.0.txs t.nonce ≡ none) × (t.nonce ≢ tx.nonce)
  pub present : r.1 ≡ true → (t : Transaction) × (get l.txs tx.nonce ≡ some t)
  pub loses :
      (n : ℕ) (t : Transaction)
      → get l.txs n ≡ some t
      → ((n ≡ tx.nonce) ⊎ (get r.0.txs n ≡ some t)) ⊎ Among t r.2
  pub absent : r.1 ≡ false → get l.txs tx.nonce ≡ none

pub Ascending-Sorted : (es : List (ℕ × Transaction)) → Ascending es → Sorted es
Ascending-Sorted [] a = tt
Ascending-Sorted (e ∷ es) a = (a.1, Ascending-Sorted es a.2)

-- The strict part of Remove.
pub above_goes :
    (l : TxList) (m : TxSortedMap) (strict : Bool) (n : ℕ)
    → Inv m
    → let r = drop_above l m strict n in
      ((k : ℕ) (t : Transaction) → get r.0.txs k ≡ some t → get m k ≡ some t)
      × ((i : ℕ) (t : Transaction)
          → get_elem? r.1 i ≡ some t
          → (get m t.nonce ≡ some t) × (get r.0.txs t.nonce ≡ none))
unfolding get
above_goes l m false n v = (λ k t e. e, λ i t e. cc)
above_goes l m true n v =
    let (items, gone) = items-filter_map m (λ tx. ltb n tx.nonce) in
    (rw items (λ k t e. (find_entry-select low k m.items t v.ascending e).0), rw (items, gone) left)
  where
    low : Transaction → Bool
    low tx = not (ltb n tx.nonce)

    left :
        (i : ℕ) (t : Transaction)
        → get_elem? (map (λ e. e.1) (select (λ tx. ltb n tx.nonce) m.items)) i ≡ some t
        → (find_entry t.nonce m.items ≡ some t) × (find_entry t.nonce (select low m.items) ≡ none)
    left i t e =
        let (found, high) = get_elem?-select (λ tx. ltb n tx.nonce) m.items i t v.ascending e in
        (
          found,
          elim (Option-cases (find_entry t.nonce (select low m.items))) [
            | inl z ↦ z
            | inr (u, z) ↦
                let (there, lower) = find_entry-select low t.nonce m.items u v.ascending z in
                let same : t ≡ u = some_inj (sym found ∙ there) in
                let at_t : low t ≡ true = ap low same ∙ lower in absurd (ground (arith, high, at_t))
          ],
        )

pub above_loses :
    (l : TxList) (m : TxSortedMap) (strict : Bool) (n k : ℕ) (t : Transaction)
    → get m k ≡ some t
    → (get (drop_above l m strict n).0.txs k ≡ some t) ⊎ Among t (drop_above l m strict n).1
unfolding get
above_loses l m false n k t e = inl e
above_loses l m true n k t e =
    let (items, gone) = items-filter_map m (λ tx. ltb n tx.nonce) in
    rw (items, gone) (find_entry-split (λ tx. ltb n tx.nonce) k m.items t e)

-- Whether a list is strict stays, and one that is not invalidates nothing.
pub strict-add : (l : TxList) (tx : Transaction) (bump : ℕ) → (add l tx bump).0.strict ≡ l.strict
unfolding add
strict-add l tx bump = elim (Bool-cases (is_refused tx bump (get l.txs tx.nonce))) [
  | inl r ↦ rw r refl
  | inr r ↦ rw r refl
]

pub strict-remove_tx :
    (l : TxList) (tx : Transaction)
    → l.strict ≡ false
    → ((remove_tx l tx).0.strict ≡ false) × ((remove_tx l tx).2 ≡ [])
unfolding remove_tx
strict-remove_tx l tx h = elim (Bool-cases (remove l.txs tx.nonce).1) [
  | inl x ↦ simp (x, h) (refl, refl)
  | inr x ↦ simp (x, h) (refl, refl)
]

pub remove_tx-Dropped : (l : TxList) (tx : Transaction) → Inv l.txs → Dropped l tx (remove_tx l tx)
unfolding remove_tx remove get
remove_tx-Dropped l tx v = elim (Option-cases (find_entry tx.nonce l.txs.items)) [
  | inl z ↦ rw z (record {
    inv = v;
    kept = λ n t e. (e, λ x. let f = ap (λ k. find_entry k l.txs.items) x in cc);
    invalids = λ i t e. cc;
    present = λ e. cc;
    loses = λ n t e. inl (inr e);
    absent = λ e. z;
  })
  | inr (old, z) ↦
      let m = (remove_found l.txs tx.nonce (some old)).0 in
      let w : Inv m =
        subst (λ o. Inv (remove_found l.txs tx.nonce o).0) z (remove-Inv l.txs tx.nonce v) in
      let (stays, goes) = above_goes l m l.strict tx.nonce w in
      rw z (record {
        inv = drop_above-Inv l m l.strict tx.nonce w;
        kept = λ n t e. before n t (stays n t e);
        invalids = λ i t e. let (x, y) = goes i t e in let (u, d) = before t.nonce t x in (u, y, d);
        present = λ e. (old, z);
        loses = λ n t e. lost m n t e (λ d. above_loses l m l.strict tx.nonce n t (after n t e d));
        absent = λ e. cc;
      })
]
  where
    after :
        (n : ℕ) (t : Transaction)
        → find_entry n l.txs.items ≡ some t
        → n ≢ tx.nonce
        → find_entry n (delete_entry tx.nonce l.txs.items) ≡ some t
    after n t e d =
        let x : (tx.nonce == n) ≡ false = ground (arith, d) in
        find_entry-delete_entry tx.nonce n l.txs.items (Ascending-Sorted l.txs.items v.ascending)
        ∙ rw x e

    lost :
        (m : TxSortedMap) (n : ℕ) (t : Transaction)
        → find_entry n l.txs.items ≡ some t
        → (n ≢ tx.nonce
            → (find_entry n (drop_above l m l.strict tx.nonce).0.txs.items ≡ some t)
              ⊎ Among t (drop_above l m l.strict tx.nonce).1)
        → ((n ≡ tx.nonce) ⊎ (find_entry n (drop_above l m l.strict tx.nonce).0.txs.items ≡ some t))
          ⊎ Among t (drop_above l m l.strict tx.nonce).1
    lost m n t e rest = elim (Bool-cases (tx.nonce == n)) [
      | inl x ↦ inl (inl (ground (arith, x)))
      | inr x ↦ elim (rest (λ y. ground (arith, x, y))) [ inl z ↦ inl (inr z) | inr z ↦ inr z ]
    ]

    before :
        (n : ℕ) (t : Transaction)
        → find_entry n (delete_entry tx.nonce l.txs.items) ≡ some t
        → (find_entry n l.txs.items ≡ some t) × (n ≢ tx.nonce)
    before n t e =
        let f =
          sym (
            find_entry-delete_entry tx.nonce n l.txs.items
              (Ascending-Sorted l.txs.items v.ascending))
          ∙ e in
        elim (Bool-cases (tx.nonce == n)) [
          | inl x ↦ let none_there : none ≡ some t = simp x at f in cc
          | inr x ↦ (simp x at f, λ y. ground (arith, x, y))
        ]
