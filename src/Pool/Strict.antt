-- ===== src/Pool/Strict.antt =====
-- What `Filter` and `Remove` of core/tx_list.go leave of a list.
use kkchain.Base.{
  ℕ, ◌+◌, ◌<◌, [], ◌∷◌, Option, none, some, Bool, true, false, not, ◌&&◌, ◌==◌, ltb, leb,
  Bool-cases, ◌≡◌, ◌⊎◌, refl, ap, sym, subst, ◌∙◌, inl, inr, arith, ℤ, ltb_ℤ,
}
use kkchain.Pool.SortedMap.{
  Transaction, find_entry, values, get, select, filter_map, remove, remove_found, delete_entry,
}
use kkchain.Pool.Entries.{Above, Ascending, find_entry-Above}
use kkchain.Pool.Operations.{filter_map-Inv, items-filter_map}
use kkchain.Pool.TxList.{
  TxList, is_costly, drop_above, is_nonempty, lowest_nonce, filter_list, remove_tx,
}
use kkchain.Pool.Limits.{Affords, Affords-mono, IsValid}
use kkchain.Pool.Filter.{
  Entries, before, leaves, AllSmall, select_affordable, keeps_affordable, leaves_affordable,
  drop_above-items, drop_above-Inv, drop_above-caps, filtered_items,
}

-- The list and what it returns when the filters run.
pub record Filtered (l : TxList) (c : ℤ) (g : ℕ) : Type 0 where
  pub items : (filter_list l c g).0.txs.items ≡ leaves l.strict (is_costly c g) l.txs.items
  pub removed : (filter_list l c g).1 ≡ values (select (is_costly c g) l.txs.items)
  pub valid : IsValid (filter_list l c g).0

-- Where the caps are within the limits, nothing is costly, and Filter need not look.
skipped :
    (l : TxList) (c : ℤ) (g : ℕ)
    → IsValid l
    → (not (ltb_ℤ c l.costcap) && leb l.gascap g) ≡ true
    → Affords c g l.txs.items
skipped l c g v h =
    Affords-mono l.costcap c l.gascap g l.txs.items (ground (arith, h)) (ground (arith, h)) v.capped

-- For a valid list with nonces of 64 bits, Filter returns the transactions above the limits, and
-- leaves a valid list of the rest: in strict mode, of those with a lower nonce than each it removes.
-- So its shortcut by the caps is right.
pub filter_list_lem :
    (l : TxList) (c : ℤ) (g : ℕ) → IsValid l → AllSmall l.txs.items → Filtered l c g
unfolding filter_list
filter_list_lem l c g v s = elim (Bool-cases (not (ltb_ℤ c l.costcap) && leb l.gascap g)) [
  | inl h ↦
      let a = skipped l c g v h in
      let all = keeps_affordable c g l.strict l.txs.items a in
      let nothing = select_affordable c g l.txs.items a in
      record {
        items = simp h (sym all);
        removed = simp h (ap values (sym nothing));
        valid = simp h v;
      }
  | inr h ↦
      let f = is_costly c g in
      let m = (filter_map l.txs f).0 in
      let (items, removed) = items-filter_map l.txs f in
      let above = l.strict && is_nonempty (filter_map l.txs f).1 in
      let lowest = lowest_nonce (filter_map l.txs f).1 in
      let capped = record l { costcap = c; gascap = g } in
      let kept : (drop_above capped m above lowest).0.txs.items ≡ leaves l.strict f l.txs.items =
        drop_above-items capped m above lowest
        ∙ (rw (items, removed) (filtered_items f l.strict l.txs.items v.inv.ascending s)) in
      let (caps, gases) = drop_above-caps capped m above lowest in
      record {
        items = rw h kept;
        removed = rw h removed;
        valid = rw h (record {
          inv = drop_above-Inv capped m above lowest (filter_map-Inv l.txs f v.inv);
          capped = rw (kept, caps, gases) (leaves_affordable c g l.strict l.txs.items);
        });
      }
]

-- Successive nonces.
abbrev pub NoGaps : Entries → Type 0
NoGaps [] = Unit {0}
NoGaps (e ∷ []) = Unit {0}
NoGaps (e ∷ f ∷ es) = (f.0 ≡ e.0 + 1) × NoGaps (f ∷ es)

before-NoGaps : (f : Transaction → Bool) (es : Entries) → NoGaps es → NoGaps (before f es)
unfolding before
before-NoGaps f [] n = tt
before-NoGaps f (d ∷ []) n = elim (Bool-cases (f d.1)) [ inl x ↦ rw x tt | inr x ↦ rw x tt ]
before-NoGaps f (d ∷ e ∷ es) n =
    let rest = before-NoGaps f (e ∷ es) n.1 in
    elim (Bool-cases (f d.1)) [
      | inl x ↦ rw x tt
      | inr x ↦ elim (Bool-cases (f e.1)) [
        | inl y ↦ rw (x, y) tt
        | inr y ↦ rw (x, y) (n.0, simp y at rest)
      ]
    ]

-- What is above a nonce goes with the entries above it.
high_goes :
    (n : ℕ) (es : Entries) → Above n es → Ascending es → select (λ tx. not (ltb n tx.nonce)) es ≡ []
unfolding select
high_goes n [] a b = refl
high_goes n (e ∷ es) a b =
    let high : ltb n e.1.nonce ≡ true = ground (arith, a.0, b.0) in rw high (high_goes n es a.1 b.2)

-- The map without a nonce that it has and without what is above it.
delete-before :
    (n : ℕ) (es : Entries) (tx : Transaction)
    → Ascending es
    → find_entry n es ≡ some tx
    → select (λ t. not (ltb n t.nonce)) (delete_entry n es) ≡ before (λ t. t.nonce == n) es
unfolding delete_entry select before find_entry
delete-before n [] tx a h = cc
delete-before n (e ∷ es) tx a h = elim (Bool-cases (e.0 == n)) [
  | inl x ↦
      let here : (e.1.nonce == n) ≡ true = ground (arith, x, a.0) in
      let same : e.0 ≡ n = ground (arith, x) in
      rw (x, here) (high_goes n es (subst (λ k. Above k es) same a.1) a.2)
  | inr x ↦
      let found : find_entry n es ≡ some tx = simp x at h in
      let low : e.0 < n = lower found in
      let keep : ltb n e.1.nonce ≡ false = ground (arith, a.0, low) in
      let there : (e.1.nonce == n) ≡ false = ground (arith, a.0, low) in
      rw (x, keep, there) (ap (λ (r : Entries). e ∷ r) (delete-before n es tx a.2 found))
]
  where
    lower : find_entry n es ≡ some tx → e.0 < n
    lower found = elim (Bool-cases (ltb e.0 n)) [
      | inl l ↦ ground (arith, l)
      | inr l ↦ let none_there = find_entry-Above n e.0 es (ground (arith, l)) a.1 in cc
    ]

-- What Remove leaves in strict mode.
removed_items :
    (l : TxList) (tx : Transaction)
    → IsValid l
    → l.strict ≡ true
    → (remove_tx l tx).0.txs.items ≡ l.txs.items
      ⊎ (remove_tx l tx).0.txs.items ≡ before (λ t. t.nonce == tx.nonce) l.txs.items
unfolding remove_tx remove get
removed_items l tx v s = go (find_entry tx.nonce l.txs.items) refl
  where
    go :
        (o : Option Transaction)
        → find_entry tx.nonce l.txs.items ≡ o
        → (remove_tx l tx).0.txs.items ≡ l.txs.items
          ⊎ (remove_tx l tx).0.txs.items ≡ before (λ t. t.nonce == tx.nonce) l.txs.items
    go none e = inl (rw e refl)
    go (some old) e =
        let m = (remove_found l.txs tx.nonce (some old)).0 in
        inr (
          rw e (
            drop_above-items l m l.strict tx.nonce
            ∙ simp s (delete-before tx.nonce l.txs.items old v.inv.ascending e)))

-- In strict mode, a valid list of successive nonces of 64 bits stays one when Filter or Remove takes
-- transactions out of it.
pub strict-NoGaps :
    (l : TxList)
    → IsValid l
    → AllSmall l.txs.items
    → l.strict ≡ true
    → NoGaps l.txs.items
    → ((c : ℤ) (g : ℕ) → NoGaps (filter_list l c g).0.txs.items)
      × ((tx : Transaction) → NoGaps (remove_tx l tx).0.txs.items)
unfolding leaves
strict-NoGaps l v a s n = (
  λ c g.
      subst NoGaps
        (sym ((filter_list_lem l c g v a).items ∙ strict_leaves s (is_costly c g) l.txs.items))
        (before-NoGaps (is_costly c g) l.txs.items n),
  λ tx. elim (removed_items l tx v s) [
    | inl e ↦ subst NoGaps (sym e) n
    | inr e ↦ subst NoGaps (sym e) (before-NoGaps (λ t. t.nonce == tx.nonce) l.txs.items n)
  ],
)
  where
    strict_leaves :
        {b : Bool}
        → b ≡ true
        → (f : Transaction → Bool) (es : Entries) → leaves b f es ≡ before f es
    strict_leaves h f es = rw h refl
