-- ===== src/Pool/Operations.antt =====
-- The operations of a `txSortedMap` of core/tx_list.go, one by one: Filter, Remove and Cap.
use mathlib.Core.List.{append-nil}
use kkchain.Base.{
  ℕ, ◌+◌, ◌-◌, ◌<◌, List, [], ◌∷◌, ◌++◌, map, none, some, Bool, false, not, leb, length, take,
  reverse, length-append, length-map, map-append, Bool-cases, Option-cases, ◌≡◌, ◌⊎◌, refl, ap, sym,
  subst, ◌∙◌, inl, inr, arith, take-append, length-reverse,
}
use kkchain.Pool.SortedMap.{
  Transaction, TxSortedMap, find_entry, keys, values, heap_remove, get, select, reheap, filter_map,
  cap_loop, cap, remove,
}
use kkchain.Pool.Entries.{
  Ascending, delete_entry-Ascending, keys-delete_entry, select-Ascending, heap_init-keys,
}
use kkchain.Pool.Loops.{cap_loop-Capped, Ascending-front}
use kkchain.Pool.Upkeep.{Inv, shift_back-cached}

reheap-Inv :
    (m : TxSortedMap) (f : Transaction → Bool) (removed : List (ℕ × Transaction))
    → Inv m
    → (removed ≡ [] → select f m.items ≡ m.items)
    → Inv (reheap m (select f m.items) (values removed))
reheap-Inv m f [] v h = record {
  ascending = select-Ascending f m.items v.ascending;
  indexed = v.indexed ∙ ap keys (sym (h refl));
  cached = subst (λ x. (m.cache ≡ none) ⊎ (m.cache ≡ some (values x))) (sym (h refl)) v.cached;
}
reheap-Inv m f (_ ∷ _) v h = record {
  ascending = select-Ascending f m.items v.ascending;
  indexed = heap_init-keys (select f m.items) (select-Ascending f m.items v.ascending);
  cached = inl refl;
}

-- A filter that finds nothing leaves everything.
select_all :
    (f : Transaction → Bool) (es : List (ℕ × Transaction))
    → select f es ≡ []
    → select (λ tx. not (f tx)) es ≡ es
unfolding select
select_all f [] h = refl
select_all f (e ∷ es) h = elim (Bool-cases (f e.1)) [
  | inl x ↦ let full : (e ∷ select f es) ≡ [] = simp x at h in cc
  | inr x ↦ rw x (ap (λ (r : List (ℕ × Transaction)). e ∷ r) (select_all f es (simp x at h)))
]

pub filter_map-Inv : (m : TxSortedMap) (f : Transaction → Bool) → Inv m → Inv (filter_map m f).0
unfolding filter_map
filter_map-Inv m f v = reheap-Inv m (λ tx. not (f tx)) (select f m.items) v (select_all f m.items)

pub items-filter_map :
    (m : TxSortedMap) (f : Transaction → Bool)
    → ((filter_map m f).0.items ≡ select (λ tx. not (f tx)) m.items)
      × ((filter_map m f).1 ≡ values (select f m.items))
unfolding filter_map
items-filter_map m f = (items_of (select f m.items), refl)
  where
    items_of :
        (removed : List (ℕ × Transaction))
        → (reheap m (select (λ tx. not (f tx)) m.items) (values removed)).items
          ≡ select (λ tx. not (f tx)) m.items
    items_of [] = refl
    items_of (_ ∷ _) = refl

pub remove-Inv : (m : TxSortedMap) (n : ℕ) → Inv m → Inv (remove m n).0
unfolding remove get
remove-Inv m n v = elim (Option-cases (find_entry n m.items)) [
  | inl e ↦ rw e v
  | inr (tx, e) ↦ rw e (record {
    ascending = delete_entry-Ascending n m.items v.ascending;
    indexed = ap (heap_remove n) v.indexed ∙ sym (keys-delete_entry n m.items);
    cached = inl refl;
  })
]

-- What Cap does.
pub record CappedAt (m : TxSortedMap) (limit : ℕ) : Type 0 where
  pub result : TxSortedMap
  pub dropped : List Transaction
  pub returned : cap m limit ≡ some (result, map some dropped)
  pub parts : values m.items ≡ values result.items ++ reverse dropped
  pub many : length dropped ≡ length m.items - limit
  pub inv : Inv result

take-keys :
    (es fs : List (ℕ × Transaction)) (n : ℕ) → length es ≡ n → take n (keys (es ++ fs)) ≡ keys es
take-keys es fs n h =
    ap (take n) (map-append (λ x. x.0) es fs)
    ∙ subst (λ k. take k (keys es ++ keys fs) ≡ keys es) (length-map (λ x. x.0) es ∙ h)
        (take-append (keys es) (keys fs))

-- On a well-formed map, Cap does not panic, returns the transactions with the highest nonces, as many
-- as there are above the limit, and leaves the others in order; the map stays well formed.
pub cap_lem : (m : TxSortedMap) (limit : ℕ) → Inv m → CappedAt m limit
unfolding cap
cap_lem m limit v = elim (Bool-cases (leb (length m.items) limit)) [
  | inl l ↦ record {
    result = m;
    dropped = [];
    returned = rw l refl;
    parts = sym (append-nil (values m.items));
    many = ground (arith, l);
    inv = v;
  }
  | inr l ↦
      let rounds = length m.items - limit in
      let c = cap_loop-Capped rounds m.items [] (length m.items) v.ascending refl (omega arith) in
      let (tail, p, r) = c.parts in
      let whole : values m.items ≡ values c.kept ++ reverse c.dropped =
        ap values p ∙ map-append (λ x. x.1) c.kept tail ∙ ap (λ xs. values c.kept ++ xs) r in
      let loop : cap_loop rounds (length m.items) m.index m.items
          ≡ some (map some c.dropped, c.kept) =
        ap (λ ks. cap_loop rounds (length m.items) ks m.items)
          (v.indexed ∙ sym (append-nil (keys m.items)))
        ∙ c.returned in
      let (cache, e, ok) =
        shift_back-cached m.cache (values c.kept) (reverse c.dropped)
          (subst (λ xs. (m.cache ≡ none) ⊎ (m.cache ≡ some xs)) whole v.cached) in
      let gone : length (map some c.dropped) ≡ length (reverse c.dropped) =
        length-map some c.dropped ∙ sym (length-reverse c.dropped) in
      let kept_many : length c.kept ≡ limit = omega (
        arith,
        ground_length m.items c.kept tail p,
        length_tail tail c.dropped r,
        c.many,
        over l,
      ) in
      record {
        result = record { items = c.kept; index = take limit m.index; cache = cache };
        dropped = c.dropped;
        returned = rw (l, loop, gone, e) refl;
        parts = whole;
        many = c.many;
        inv = record {
          ascending = Ascending-front c.kept tail (subst Ascending p v.ascending);
          indexed = ap (take limit) (v.indexed ∙ ap keys p) ∙ take-keys c.kept tail limit kept_many;
          cached = ok;
        };
      }
]
  where
    over : leb (length m.items) limit ≡ false → limit < length m.items
    over h = ground (arith, h)

    ground_length :
        (es fs gs : List (ℕ × Transaction)) → es ≡ fs ++ gs → length es ≡ length fs + length gs
    ground_length es fs gs h = ap length h ∙ length-append fs gs

    length_tail :
        (es : List (ℕ × Transaction)) (ts : List Transaction)
        → values es ≡ reverse ts
        → length es ≡ length ts
    length_tail es ts h = sym (length-map (λ x. x.1) es) ∙ ap length h ∙ length-reverse ts
