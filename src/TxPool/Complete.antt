-- ===== src/TxPool/Complete.antt =====
-- core/tx_pool.go: that what the lookup knows stands in a list, or is on its way to one.
use kkchain.Base.{
  ℕ, zero, suc, List, [], ◌∷◌, ◌++◌, reverse, Option, none, some, Bool, true, false, not, ◌==◌,
  if◌then◌else◌, Bool-cases, get_elem?, ◌≡◌, ◌≢◌, ◌⊎◌, refl, ap, sym, subst, ◌∙◌, inl, inr, arith,
  some_inj,
}
use kkchain.Pool.SortedMap.{Transaction, find_entry, select, values}
use kkchain.TxPool.Priced.{TxLookup, lookup_get, lookup_remove}
use kkchain.TxPool.Lookup.{find_entry-delete_entry}
use kkchain.TxPool.Places.{Places, Sees, Fresh, lookup_with, lookup_without, get-with, get-remove}

abbrev pub Among : Transaction → List Transaction → Type 0
Among t [] = ⊥
Among t (x ∷ xs) = (x ≡ t) ⊎ Among t xs

pub Among-get :
    (xs : List Transaction) (i : ℕ) (t : Transaction) → get_elem? xs i ≡ some t → Among t xs
Among-get [] i t e = cc
Among-get (x ∷ xs) zero t e = inl (some_inj e)
Among-get (x ∷ xs) (suc i) t e = inr (Among-get xs i t e)

pub Among-append :
    (t : Transaction) (xs ys : List Transaction) → Among t xs ⊎ Among t ys → Among t (xs ++ ys)
Among-append t [] ys (inr h) = h
Among-append t [] ys (inl h) = absurd h
Among-append t (x ∷ xs) ys (inl (inl h)) = inl h
Among-append t (x ∷ xs) ys (inl (inr h)) = inr (Among-append t xs ys (inl h))
Among-append t (x ∷ xs) ys (inr h) = inr (Among-append t xs ys (inr h))

pub Among-reverse : (t : Transaction) (xs : List Transaction) → Among t xs → Among t (reverse xs)
Among-reverse t [] h = h
Among-reverse t (x ∷ xs) (inl h) = Among-append t (reverse xs) (x ∷ []) (inr (inl h))
Among-reverse t (x ∷ xs) (inr h) = Among-append t (reverse xs) (x ∷ []) (inl (Among-reverse t xs h))

pub Among-index :
    (t : Transaction) (xs : List Transaction) → Among t xs → (i : ℕ) × (get_elem? xs i ≡ some t)
Among-index t [] h = absurd h
Among-index t (x ∷ xs) (inl h) = (zero, ap some h)
Among-index t (x ∷ xs) (inr h) = let (i, e) = Among-index t xs h in (suc i, e)

-- What is in an entry stays after a filter, or is taken out by it.
pub find_entry-split :
    (f : Transaction → Bool) (k : ℕ) (es : List (ℕ × Transaction)) (t : Transaction)
    → find_entry k es ≡ some t
    → (find_entry k (select (λ tx. not (f tx)) es) ≡ some t) ⊎ Among t (values (select f es))
unfolding find_entry select
find_entry-split f k [] t h = cc
find_entry-split f k (e ∷ es) t h = elim (Bool-cases (e.0 == k)) [
  | inl x ↦
      let same : e.1 ≡ t = some_inj (simp x at h) in
      elim (Bool-cases (f e.1)) [
        | inl y ↦ rw y (inr (inl same))
        | inr y ↦ rw (y, x) (inl (ap some same))
      ]
  | inr x ↦
      let rest = find_entry-split f k es t (simp x at h) in
      elim (Bool-cases (f e.1)) [
        | inl y ↦ rw y (elim rest [ inl z ↦ inl z | inr z ↦ inr (inr z) ])
        | inr y ↦ rw (y, x) rest
      ]
]

abbrev pub Listed : Places → Transaction → Type 0
Listed v t = (b : Bool) × (v b t.sender t.nonce ≡ some t)

-- Every known transaction stands in a list, but for some on their way.
abbrev pub Complete : Places → TxLookup → List Transaction → Type 0
Complete v all moving =
    (h : ℕ) (t : Transaction) → lookup_get all h ≡ some t → Listed v t ⊎ Among t moving

pub Complete-move :
    (v w : Places) (all : TxLookup) (moving : List Transaction)
    → Complete v all []
    → ((t : Transaction) → Listed v t → Listed w t ⊎ Among t moving)
    → Complete w all moving
Complete-move v w all moving c m h t e = elim (c h t e) [ inl l ↦ m t l | inr x ↦ absurd x ]

pub Complete-more :
    (v : Places) (all : TxLookup) (tx : Transaction) (moving : List Transaction)
    → Complete v all moving
    → Complete v all (tx ∷ moving)
Complete-more v all tx moving c h t e = elim (c h t e) [ inl l ↦ inl l | inr x ↦ inr (inr x) ]

-- One on its way is forgotten.
pub Complete-forget :
    (v u : Places) (all : TxLookup) (hash : ℕ) (tx : Transaction) (moving : List Transaction)
    → Sees u all
    → tx.hash ≡ hash
    → Complete v all (tx ∷ moving)
    → Complete v (lookup_remove all hash) moving
Complete-forget v u all hash tx moving s k c h t e =
    let known = get-remove all hash h t s.sorted e in
    elim (c h t known) [
      | inl l ↦ inl l
      | inr (inr x) ↦ inr x
      | inr (inl x) ↦
          let same : hash ≡ h = sym k ∙ ap (λ (r : Transaction). r.hash) x ∙ s.keyed h t known in
          let y : (hash == h) ≡ true = ground (arith, same) in
          let gone : lookup_get (lookup_remove all hash) h ≡ none =
            find_entry-delete_entry hash h all s.sorted ∙ rw y refl in
          cc
    ]

pub same_bool : (b c : Bool) → (b ≡ c) ⊎ (b ≢ c)
same_bool true true = inl refl
same_bool false false = inl refl
same_bool true false = inr (λ e. cc)
same_bool false true = inr (λ e. cc)

pub same_number : (m n : ℕ) → (m ≡ n) ⊎ (m ≢ n)
same_number m n = elim (Bool-cases (m == n)) [
  | inl x ↦ inl (ground (arith, x))
  | inr x ↦ inr (λ e. ground (arith, x, e))
]

without-known :
    (v : Places) (old : Option Transaction) (all : TxLookup) (h : ℕ) (t : Transaction)
    → Sees v all
    → lookup_get (lookup_without old all) h ≡ some t
    → (lookup_get all h ≡ some t) × (old ≢ some t)
without-known v none all h t s e = (e, λ x. cc)
without-known v (some o) all h t s e =
    let known = get-remove all o.hash h t s.sorted e in
    (
      known,
      λ x.
          let same : o.hash ≡ h =
            ap (λ (r : Transaction). r.hash) (some_inj x) ∙ s.keyed h t known in
          let y : (o.hash == h) ≡ true = ground (arith, same) in
          let gone : lookup_get (lookup_remove all o.hash) h ≡ none =
            find_entry-delete_entry o.hash h all s.sorted ∙ rw y refl in
          cc,
    )

-- One on its way takes its place, and the one that stood there is forgotten.
pub Complete-put :
    (v w : Places) (all : TxLookup) (c : Bool) (tx : Transaction) (old : Option Transaction)
    (moving : List Transaction)
    → Sees v all
    → Fresh tx all
    → w c tx.sender tx.nonce ≡ some tx
    → ((b : Bool) (a n : ℕ) → ((b ≡ c) → (a ≡ tx.sender) → (n ≡ tx.nonce) → ⊥) → w b a n ≡ v b a n)
    → old ≡ v c tx.sender tx.nonce
    → Complete v all (tx ∷ moving)
    → Complete w (lookup_with tx (lookup_without old all)) moving
Complete-put v w all c tx old moving s f there other o k h t e =
    let g : Fresh tx (lookup_without old all) =
      λ u x. f u (without-known v old all tx.hash u s x).0 in
    let q : (if tx.hash == h then some tx else lookup_get (lookup_without old all) h) ≡ some t =
      sym (get-with tx (lookup_without old all) h g) ∙ e in
    elim (Bool-cases (tx.hash == h)) [
      | inl x ↦ inl (here t (some_inj (simp x at q)))
      | inr x ↦
          let (known, kept) = without-known v old all h t s (simp x at q) in
          elim (k h t known) [
            | inl (b, l) ↦ inl (stays b t l kept)
            | inr (inl y) ↦ inl (here t y)
            | inr (inr y) ↦ inr y
          ]
    ]
  where
    here : (t : Transaction) → tx ≡ t → Listed w t
    here t x = subst (Listed w) x (c, there)

    stays : (b : Bool) (t : Transaction) → v b t.sender t.nonce ≡ some t → old ≢ some t → Listed w t
    stays b t l kept = elim (same_bool b c) [
      | inr d ↦ (b, other b t.sender t.nonce (λ x y z. d x) ∙ l)
      | inl x ↦ elim (same_number t.sender tx.sender) [
        | inr d ↦ (b, other b t.sender t.nonce (λ p y z. d y) ∙ l)
        | inl y ↦ elim (same_number t.nonce tx.nonce) [
          | inr d ↦ (b, other b t.sender t.nonce (λ p q z. d z) ∙ l)
          | inl z ↦ absurd (
              kept (
                o
                ∙ ap (λ d. v d tx.sender tx.nonce) (sym x)
                ∙ ap (λ a. v b a tx.nonce) (sym y)
                ∙ ap (v b t.sender) (sym z)
                ∙ l))
        ]
      ]
    ]
