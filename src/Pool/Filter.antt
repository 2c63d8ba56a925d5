-- ===== src/Pool/Filter.antt =====
-- `Filter` and `Remove` of a `txList` of core/tx_list.go, in strict mode and not.
use kkchain.Base.{
  ℕ, ◌≤◌, ◌<◌, List, [], ◌∷◌, Bool, true, false, not, ◌&&◌, if◌then◌else◌, ltb, Bool-cases, ◌≡◌,
  refl, ap, sym, ◌∙◌, inl, inr, arith, ℤ,
}
use kkchain.Pool.SortedMap.{Transaction, TxSortedMap, values, select}
use kkchain.Pool.Entries.{Above, Ascending}
use kkchain.Pool.Upkeep.{Inv}
use kkchain.Pool.Operations.{filter_map-Inv, items-filter_map}
use kkchain.Pool.TxList.{TxList, is_costly, drop_above, is_nonempty, lowest_nonce}
use kkchain.Pool.Limits.{Affords}

abbrev pub Entries : Type 0
Entries = List (ℕ × Transaction)

-- The entries before the first that a test picks.
unfoldable pub before : (Transaction → Bool) → Entries → Entries
before f [] = []
before f (e ∷ es) = let rest = before f es in if f e.1 then [] else e ∷ rest

-- What a filter leaves: in strict mode only what stands before the first that goes.
unfoldable pub leaves : Bool → (Transaction → Bool) → Entries → Entries
unfolding before
leaves strict f es = if strict then before f es else select (λ tx. not (f tx)) es

abbrev pub AllSmall : Entries → Type 0
AllSmall [] = Unit {0}
AllSmall (e ∷ es) = (e.0 ≤ 18446744073709551615) × AllSmall es

pub select_affordable :
    (c : ℤ) (g : ℕ) (es : Entries) → Affords c g es → select (is_costly c g) es ≡ []
unfolding select
select_affordable c g [] a = refl
select_affordable c g (e ∷ es) a = rw a.0 (select_affordable c g es a.1)

pub keeps_affordable :
    (c : ℤ) (g : ℕ) (strict : Bool) (es : Entries)
    → Affords c g es
    → leaves strict (is_costly c g) es ≡ es
unfolding leaves before select
keeps_affordable c g true [] a = refl
keeps_affordable c g true (e ∷ es) a =
    rw a.0 (ap (λ (r : Entries). e ∷ r) (keeps_affordable c g true es a.1))
keeps_affordable c g false [] a = refl
keeps_affordable c g false (e ∷ es) a =
    rw a.0 (ap (λ (r : Entries). e ∷ r) (keeps_affordable c g false es a.1))

-- Keys above a nonce go, when the transactions above it go.
drop_high :
    (n : ℕ) (f : Transaction → Bool) (es : Entries)
    → Above n es
    → Ascending es
    → select (λ tx. not (ltb n tx.nonce)) (select f es) ≡ []
unfolding select
drop_high n f [] a b = refl
drop_high n f (e ∷ es) a b =
    let high : ltb n e.1.nonce ≡ true = ground (arith, a.0, b.0) in
    elim (Bool-cases (f e.1)) [
      | inl x ↦ rw (x, high) (drop_high n f es a.1 b.2)
      | inr x ↦ rw x (drop_high n f es a.1 b.2)
    ]

lowest-Above :
    (n : ℕ) (f : Transaction → Bool) (es : Entries)
    → Above n es
    → Ascending es
    → AllSmall es
    → n < 18446744073709551615
    → n < lowest_nonce (values (select f es))
unfolding select lowest_nonce
lowest-Above n f [] a b s h = h
lowest-Above n f (e ∷ es) a b s h =
    let rest = lowest-Above n f es a.1 b.2 s.1 h in
    elim (Bool-cases (f e.1)) [ inl x ↦ rw x (ground (arith, a.0, b.0, rest)) | inr x ↦ rw x rest ]

below_max :
    (n : ℕ) (f : Transaction → Bool) (es : Entries)
    → Above n es
    → AllSmall es
    → is_nonempty (values (select f es)) ≡ true
    → n < 18446744073709551615
unfolding select
below_max n f [] b t k = cc
below_max n f (e ∷ es) b t k = omega (arith, b.0, t.0)

lowest_of :
    (n : ℕ) (f : Transaction → Bool) (es : Entries)
    → Above n es
    → Ascending es
    → AllSmall es
    → is_nonempty (values (select f es)) ≡ true
    → n < lowest_nonce (values (select f es))
lowest_of n f es b c t k = lowest-Above n f es b c t (below_max n f es b t k)

lowest_least :
    (n : ℕ) (f : Transaction → Bool) (es : Entries)
    → Above n es
    → Ascending es
    → n ≤ 18446744073709551615
    → n ≤ lowest_nonce (values (select f es))
unfolding select lowest_nonce
lowest_least n f [] a b h = h
lowest_least n f (e ∷ es) a b h =
    let rest = lowest_least n f es a.1 b.2 h in
    elim (Bool-cases (f e.1)) [ inl x ↦ rw x (ground (arith, a.0, b.0, rest)) | inr x ↦ rw x rest ]

first_lowest :
    (f : Transaction → Bool) (e : ℕ × Transaction) (es : Entries)
    → Ascending (e ∷ es)
    → AllSmall (e ∷ es)
    → (if ltb e.1.nonce (lowest_nonce (values (select f es)))
        then e.1.nonce
        else lowest_nonce (values (select f es)))
      ≡ e.0
first_lowest f e es a s = ground (arith, a.0, lowest_least e.0 f es a.1 a.2 s.0)

-- What a filter in strict mode leaves stands before the first that it removes.
select-before :
    (f : Transaction → Bool) (es : Entries)
    → Ascending es
    → AllSmall es
    → is_nonempty (values (select f es)) ≡ true
    → select
        (λ tx. not (ltb (lowest_nonce (values (select f es))) tx.nonce))
        (select (λ tx. not (f tx)) es)
      ≡ before f es
unfolding select before lowest_nonce
select-before f [] a s h = refl
select-before f (e ∷ es) a s h = elim (Bool-cases (f e.1)) [
  | inl x ↦
      let low : (if ltb e.1.nonce (lowest_nonce (values (select f es)))
            then e.1.nonce
            else lowest_nonce (values (select f es)))
          ≡ e.0 =
        first_lowest f e es a s in
      rw (x, low) (drop_high e.0 (λ tx. not (f tx)) es a.1 a.2)
  | inr x ↦
      let some_go : is_nonempty (values (select f es)) ≡ true = simp x at h in
      let low : e.0 < lowest_nonce (values (select f es)) =
        lowest_of e.0 f es a.1 a.2 s.1 some_go in
      let keep : ltb (lowest_nonce (values (select f es))) e.1.nonce ≡ false =
        ground (arith, a.0, low) in
      rw (x, keep) (ap (λ (r : Entries). e ∷ r) (select-before f es a.2 s.1 some_go))
]

-- Without a transaction that goes, nothing goes.
keeps_all :
    (strict : Bool) (f : Transaction → Bool) (es : Entries)
    → is_nonempty (values (select f es)) ≡ false
    → (select (λ tx. not (f tx)) es ≡ es) × (before f es ≡ es)
unfolding select before
keeps_all strict f [] h = (refl, refl)
keeps_all strict f (e ∷ es) h = elim (Bool-cases (f e.1)) [
  | inl x ↦ let full : true ≡ false = simp x at h in cc
  | inr x ↦
      let (a, b) = keeps_all strict f es (simp x at h) in
      (rw x (ap (λ (r : Entries). e ∷ r) a), rw x (ap (λ (r : Entries). e ∷ r) b))
]

pub leaves_affordable :
    (c : ℤ) (g : ℕ) (strict : Bool) (es : Entries) → Affords c g (leaves strict (is_costly c g) es)
unfolding leaves before select
leaves_affordable c g true [] = tt
leaves_affordable c g true (e ∷ es) = elim (Bool-cases (is_costly c g e.1)) [
  | inl x ↦ rw x tt
  | inr x ↦ rw x (x, leaves_affordable c g true es)
]
leaves_affordable c g false [] = tt
leaves_affordable c g false (e ∷ es) = elim (Bool-cases (is_costly c g e.1)) [
  | inl x ↦ rw x (leaves_affordable c g false es)
  | inr x ↦ rw x (x, leaves_affordable c g false es)
]

-- The strict part of Filter and Remove.
pub drop_above-items :
    (l : TxList) (m : TxSortedMap) (above : Bool) (n : ℕ)
    → (drop_above l m above n).0.txs.items
      ≡ (if above then select (λ tx. not (ltb n tx.nonce)) m.items else m.items)
drop_above-items l m true n = (items-filter_map m (λ tx. ltb n tx.nonce)).0
drop_above-items l m false n = refl

pub drop_above-Inv :
    (l : TxList) (m : TxSortedMap) (above : Bool) (n : ℕ)
    → Inv m
    → Inv (drop_above l m above n).0.txs
drop_above-Inv l m true n v = filter_map-Inv m (λ tx. ltb n tx.nonce) v
drop_above-Inv l m false n v = v

pub drop_above-caps :
    (l : TxList) (m : TxSortedMap) (above : Bool) (n : ℕ)
    → ((drop_above l m above n).0.costcap ≡ l.costcap)
      × ((drop_above l m above n).0.gascap ≡ l.gascap)
drop_above-caps l m true n = (refl, refl)
drop_above-caps l m false n = (refl, refl)

-- What stands in the map after both filters.
pub filtered_items :
    (f : Transaction → Bool) (strict : Bool) (es : Entries)
    → Ascending es
    → AllSmall es
    → (if strict && is_nonempty (values (select f es))
        then select
            (λ tx. not (ltb (lowest_nonce (values (select f es))) tx.nonce))
            (select (λ tx. not (f tx)) es)
        else select (λ tx. not (f tx)) es)
      ≡ leaves strict f es
unfolding leaves
filtered_items f false es a s = refl
filtered_items f true es a s = elim (Bool-cases (is_nonempty (values (select f es)))) [
  | inl h ↦ rw h (select-before f es a s h)
  | inr h ↦ let (x, y) = keeps_all true f es h in rw h (x ∙ sym y)
]
