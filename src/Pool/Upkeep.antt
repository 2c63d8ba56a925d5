-- ===== src/Pool/Upkeep.antt =====
-- The invariant of a `txSortedMap` of core/tx_list.go under its operations.
use kkchain.Base.{
  ℕ, ◌-◌, List, [], ◌∷◌, ◌++◌, map, Option, none, some, false, not, ltb, length, length-append,
  length-map, Bool-cases, ◌≡◌, ◌⊎◌, refl, ap, sym, subst, ◌∙◌, inl, inr, arith, take-append,
  drop-append,
}
use kkchain.Pool.SortedMap.{
  Transaction, TxSortedMap, find_entry, keys, values, get, put, push_if_new, forward_loop,
  shift_front, shift_back, forward, select,
}
use kkchain.Pool.Entries.{Ascending, put_entry-Ascending, keys-put_entry, select-Ascending}
use kkchain.Pool.Loops.{is_below, select_none, forward_loop-select}

-- The heap has the nonces of the map, and a cache has its transactions in their order.
pub record Inv (m : TxSortedMap) : Type 0 where
  pub ascending : Ascending m.items
  pub indexed : m.index ≡ keys m.items
  pub cached : (m.cache ≡ none) ⊎ (m.cache ≡ some (values m.items))

pub put-Inv : (m : TxSortedMap) (tx : Transaction) → Inv m → Inv (put m tx)
unfolding put get
put-Inv m tx v = record {
  ascending = put_entry-Ascending tx m.items v.ascending;
  indexed =
      ap (push_if_new tx.nonce (find_entry tx.nonce m.items)) v.indexed
      ∙ sym (keys-put_entry tx.nonce tx m.items v.ascending);
  cached = inl refl;
}

-- The cache of a map from which the first or the last entries go.
shift_front-cached :
    (cache : Option (List Transaction)) (xs ys : List Transaction)
    → (cache ≡ none) ⊎ (cache ≡ some (xs ++ ys))
    → (c : Option (List Transaction)) × (shift_front (length xs) cache ≡ some c)
      × ((c ≡ none) ⊎ (c ≡ some ys))
shift_front-cached cache xs ys (inl e) = (none, rw e refl, inl refl)
shift_front-cached cache xs ys (inr e) =
    let short : ltb (length (xs ++ ys)) (length xs) ≡ false = ground (arith, length-append xs ys) in
    (some ys, rw (e, short, drop-append xs ys) refl, inr refl)

pub shift_back-cached :
    (cache : Option (List Transaction)) (xs ys : List Transaction)
    → (cache ≡ none) ⊎ (cache ≡ some (xs ++ ys))
    → (c : Option (List Transaction)) × (shift_back (length ys) cache ≡ some c)
      × ((c ≡ none) ⊎ (c ≡ some xs))
shift_back-cached cache xs ys (inl e) = (none, rw e refl, inl refl)
shift_back-cached cache xs ys (inr e) =
    let short : ltb (length (xs ++ ys)) (length ys) ≡ false = ground (arith, length-append xs ys) in
    let front : length (xs ++ ys) - length ys ≡ length xs = omega (arith, length-append xs ys) in
    (some xs, rw (e, short, front, take-append xs ys) refl, inr refl)

-- What is below a threshold stands before the rest.
select-append :
    (t : ℕ) (es : List (ℕ × Transaction))
    → Ascending es
    → values (select (is_below t) es) ++ values (select (λ tx. not (is_below t tx)) es) ≡ values es
unfolding select
select-append t [] a = refl
select-append t (e ∷ es) a = elim (Bool-cases (is_below t e.1)) [
  | inl l ↦ rw l (ap (λ (r : List Transaction). e.1 ∷ r) (select-append t es a.2))
  | inr l ↦ let (x, y) = select_none t e.0 es (ground (arith, l, a.0)) a.1 a.2 in rw (l, x, y) refl
]

-- What Forward does.
pub record Forwarded (m : TxSortedMap) (t : ℕ) : Type 0 where
  pub result : TxSortedMap
  pub returned : forward m t ≡ some (result, map some (values (select (is_below t) m.items)))
  pub kept : result.items ≡ select (λ tx. not (is_below t tx)) m.items
  pub inv : Inv result

pub forward_lem : (m : TxSortedMap) (t : ℕ) → Inv m → Forwarded m t
unfolding forward
forward_lem m t v =
    let low = values (select (is_below t) m.items) in
    let rest = select (λ tx. not (is_below t tx)) m.items in
    let loop : forward_loop t m.index m.items ≡ (map some low, rest, keys rest) =
      ap (λ (ks : List ℕ). forward_loop t ks m.items) v.indexed
      ∙ forward_loop-select t m.items v.ascending in
    let (c, e, ok) = shift_front-cached m.cache low (values rest) (
      subst (λ (xs : List Transaction). (m.cache ≡ none) ⊎ (m.cache ≡ some xs))
        (sym (select-append t m.items v.ascending)) v.cached) in
    let n : length (map some low) ≡ length low = length-map some low in
    record {
      result = record { items = rest; index = keys rest; cache = c };
      returned = rw (loop, n, e) refl;
      kept = refl;
      inv = record {
        ascending = select-Ascending _ m.items v.ascending;
        indexed = refl;
        cached = ok;
      };
    }
