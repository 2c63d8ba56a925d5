-- ===== src/TxPool/Places.antt =====
-- core/tx_pool.go: where the transactions of a pool stand, as one map from a list (pending or not), an
-- account and a nonce, against the lookup by hash.
use kkchain.Base.{
  ℕ, Option, none, some, Bool, true, false, ◌==◌, if◌then◌else◌, Bool-cases, Option-cases, ◌≡◌, ◌≢◌,
  ◌⊎◌, refl, ap, sym, subst, ◌∙◌, inl, inr, arith, some_inj,
}
use kkchain.Pool.SortedMap.{Transaction}
use kkchain.Pool.Limits.{find_entry-put_entry}
use kkchain.TxPool.Priced.{TxLookup, lookup_get, lookup_add, lookup_remove}
use kkchain.TxPool.Lookup.{Sorted, put_entry-Sorted, delete_entry-Sorted, find_entry-delete_entry}

abbrev pub Places : Type 0
Places = Bool → ℕ → ℕ → Option Transaction

-- What stands in a list is known by its hash, belongs to the account and has the nonce; no nonce of
-- an account is both pending and queued.
pub record Sees (v : Places) (all : TxLookup) : Type 0 where
  pub sorted : Sorted all
  pub keyed : (h : ℕ) (t : Transaction) → lookup_get all h ≡ some t → t.hash ≡ h
  pub known :
      (b : Bool) (a n : ℕ) (t : Transaction)
      → v b a n ≡ some t
      → (lookup_get all t.hash ≡ some t) × (t.sender ≡ a) × (t.nonce ≡ n)
  pub apart : (a n : ℕ) (t u : Transaction) → v true a n ≡ some t → v false a n ≡ some u → ⊥

-- The places after some transactions left.
abbrev pub Shrinks : Places → Places → Type 0
Shrinks v w = (b : Bool) (a n : ℕ) (t : Transaction) → w b a n ≡ some t → v b a n ≡ some t

-- The places after a transaction was put into a list, over the one with its nonce.
abbrev pub Puts : Places → Places → Bool → Transaction → Type 0
Puts v w c tx =
    (b : Bool) (a n : ℕ) (t : Transaction)
    → w b a n ≡ some t
    → ((v b a n ≡ some t) × (b ≡ c → a ≡ tx.sender → n ≡ tx.nonce → ⊥))
      ⊎ ((t ≡ tx) × (b ≡ c) × (a ≡ tx.sender) × (n ≡ tx.nonce))

pub Sees-Shrinks : (v w : Places) (all : TxLookup) → Sees v all → Shrinks v w → Sees w all
Sees-Shrinks v w all s h = record {
  sorted = s.sorted;
  keyed = s.keyed;
  known = λ b a n t e. s.known b a n t (h b a n t e);
  apart = λ a n t u e f. s.apart a n t u (h true a n t e) (h false a n u f);
}

pub get-remove :
    (all : TxLookup) (hash h : ℕ) (t : Transaction)
    → Sorted all
    → lookup_get (lookup_remove all hash) h ≡ some t
    → lookup_get all h ≡ some t
get-remove all hash h t s e =
    let f : (if hash == h then none else lookup_get all h) ≡ some t =
      sym (find_entry-delete_entry hash h all s) ∙ e in
    elim (Bool-cases (hash == h)) [
      | inl x ↦ let n : none ≡ some t = simp x at f in cc
      | inr x ↦ simp x at f
    ]

pub remove-get :
    (all : TxLookup) (hash h : ℕ) (t : Transaction)
    → Sorted all
    → h ≢ hash
    → lookup_get all h ≡ some t
    → lookup_get (lookup_remove all hash) h ≡ some t
remove-get all hash h t s d e = elim (Bool-cases (hash == h)) [
  | inl x ↦ absurd (d (ground (arith, x)))
  | inr x ↦ find_entry-delete_entry hash h all s ∙ rw x e
]

-- A hash leaves the lookup after the transactions that have it left the lists.
pub Sees-remove :
    (v : Places) (all : TxLookup) (hash : ℕ)
    → Sees v all
    → ((b : Bool) (a n : ℕ) (t : Transaction) → v b a n ≡ some t → t.hash ≢ hash)
    → Sees v (lookup_remove all hash)
Sees-remove v all hash s gone = record {
  sorted = delete_entry-Sorted hash all s.sorted;
  keyed = λ h t e. s.keyed h t (get-remove all hash h t s.sorted e);
  known = λ b a n t e.
      let k = s.known b a n t e in
      (remove-get all hash t.hash t s.sorted (gone b a n t e) k.0, k.1, k.2);
  apart = s.apart;
}

-- The lookup of `discard_old` and of `know`.
abbrev pub lookup_without : Option Transaction → TxLookup → TxLookup
lookup_without none all = all
lookup_without (some old) all = lookup_remove all old.hash

abbrev pub lookup_with_from : Option Transaction → Transaction → TxLookup → TxLookup
lookup_with_from none tx all = lookup_add all tx
lookup_with_from (some _) tx all = all

abbrev pub lookup_with : Transaction → TxLookup → TxLookup
lookup_with tx all = lookup_with_from (lookup_get all tx.hash) tx all

-- No other transaction has the hash.
abbrev pub Fresh : Transaction → TxLookup → Type 0
Fresh tx all = (u : Transaction) → lookup_get all tx.hash ≡ some u → u ≡ tx

pub get-with :
    (tx : Transaction) (all : TxLookup) (h : ℕ)
    → Fresh tx all
    → lookup_get (lookup_with tx all) h ≡ (if tx.hash == h then some tx else lookup_get all h)
get-with tx all h f = elim (Option-cases (lookup_get all tx.hash)) [
  | inl n ↦ rw n (find_entry-put_entry tx.hash h tx all)
  | inr (u, e) ↦ rw e (elim (Bool-cases (tx.hash == h)) [
    | inl x ↦
        let same : tx.hash ≡ h = ground (arith, x) in
        rw x (ap (lookup_get all) (sym same) ∙ e ∙ ap some (f u e))
    | inr x ↦ rw x refl
  ])
]

with-Sorted : (tx : Transaction) (all : TxLookup) → Sorted all → Sorted (lookup_with tx all)
with-Sorted tx all s = elim (Option-cases (lookup_get all tx.hash)) [
  | inl n ↦ rw n (put_entry-Sorted tx.hash tx all s)
  | inr (u, e) ↦ rw e s
]

pub Sees-with :
    (v w : Places) (all : TxLookup) (c : Bool) (tx : Transaction)
    → Sees v all
    → Fresh tx all
    → Puts v w c tx
    → ((d : Bool) → d ≢ c → v d tx.sender tx.nonce ≡ none)
    → Sees w (lookup_with tx all)
Sees-with v w all c tx s f p free = record {
  sorted = with-Sorted tx all s.sorted;
  keyed = λ h t e. keyed h t (sym (get-with tx all h f) ∙ e);
  known = λ b a n t e. elim (p b a n t e) [
    | inl (o, d) ↦ let k = s.known b a n t o in (stays t k.0, k.1, k.2)
    | inr (x, y, z, q) ↦ (
      subst Known (sym x) here,
      ap (λ (r : Transaction). r.sender) x ∙ sym z,
      ap (λ (r : Transaction). r.nonce) x ∙ sym q,
    )
  ];
  apart = λ a n t u e g. split a n t u (p true a n t e) (p false a n u g);
}
  where
    Known : Transaction → Type 0
    Known t = lookup_get (lookup_with tx all) t.hash ≡ some t

    keyed :
        (h : ℕ) (t : Transaction)
        → (if tx.hash == h then some tx else lookup_get all h) ≡ some t
        → t.hash ≡ h
    keyed h t e = elim (Bool-cases (tx.hash == h)) [
      | inl x ↦
          let same : tx ≡ t = some_inj (simp x at e) in
          ap (λ (r : Transaction). r.hash) (sym same) ∙ ground (arith, x)
      | inr x ↦ s.keyed h t (simp x at e)
    ]

    stays : (t : Transaction) → lookup_get all t.hash ≡ some t → Known t
    stays t k = get-with tx all t.hash f ∙ (elim (Bool-cases (tx.hash == t.hash)) [
      | inl x ↦
          let same : tx.hash ≡ t.hash = ground (arith, x) in
          rw x (ap some (sym (f t (ap (lookup_get all) same ∙ k))))
      | inr x ↦ rw x k
    ])

    here : Known tx
    here =
        let x : (tx.hash == tx.hash) ≡ true = ground arith in get-with tx all tx.hash f ∙ rw x refl

    at_free :
        (d : Bool) (t : Transaction)
        → d ≢ c
        → (a n : ℕ) → a ≡ tx.sender
        → n ≡ tx.nonce
        → v d a n ≡ some t
        → ⊥
    at_free d t other a n x y e = let z = free d other in cc

    split :
        (a n : ℕ) (t u : Transaction)
        → ((v true a n ≡ some t) × (true ≡ c → a ≡ tx.sender → n ≡ tx.nonce → ⊥))
          ⊎ ((t ≡ tx) × (true ≡ c) × (a ≡ tx.sender) × (n ≡ tx.nonce))
        → ((v false a n ≡ some u) × (false ≡ c → a ≡ tx.sender → n ≡ tx.nonce → ⊥))
          ⊎ ((u ≡ tx) × (false ≡ c) × (a ≡ tx.sender) × (n ≡ tx.nonce))
        → ⊥
    split a n t u (inl x) (inl y) = s.apart a n t u x.0 y.0
    split a n t u (inl x) (inr y) = at_free true t (λ e. let f = y.1 in cc) a n y.2 y.3 x.0
    split a n t u (inr x) (inl y) = at_free false u (λ e. let f = x.1 in cc) a n x.2 x.3 y.0
    split a n t u (inr x) (inr y) = let e = x.1 in let f = y.1 in cc

abbrev unless_hash : ℕ → Option Transaction → Option Transaction
unless_hash h none = none
unless_hash h (some t) = if t.hash == h then none else some t

unless-some :
    (h : ℕ) (o : Option Transaction) (t : Transaction)
    → unless_hash h o ≡ some t
    → (o ≡ some t) × (t.hash ≢ h)
unless-some h none t e = cc
unless-some h (some u) t e = elim (Bool-cases (u.hash == h)) [
  | inl x ↦ let n : none ≡ some t = simp x at e in cc
  | inr x ↦
      let same : u ≡ t = some_inj (simp x at e) in
      let hashes = ap (λ (r : Transaction). r.hash) same in
      (ap some same, λ y. ground (arith, x, hashes, y))
]

some-unless :
    (h : ℕ) (o : Option Transaction) (t : Transaction)
    → o ≡ some t
    → t.hash ≢ h
    → unless_hash h o ≡ some t
some-unless h o t e d = elim (Bool-cases (t.hash == h)) [
  | inl x ↦ absurd (d (ground (arith, x)))
  | inr x ↦ rw e (rw x refl)
]

-- A transaction takes the place of another, which is forgotten.
pub Sees-put :
    (v w : Places) (all : TxLookup) (c : Bool) (tx : Transaction) (old : Option Transaction)
    → Sees v all
    → Fresh tx all
    → Puts v w c tx
    → ((d : Bool) → d ≢ c → v d tx.sender tx.nonce ≡ none)
    → old ≡ v c tx.sender tx.nonce
    → Sees w (lookup_with tx (lookup_without old all))
Sees-put v w all c tx none s f p free o = Sees-with v w all c tx s f p free
Sees-put v w all c tx (some old) s f p free o =
    let rest =
      Sees-remove hole all old.hash
        (Sees-Shrinks v hole all s (λ b a n t e. (unless-some old.hash (v b a n) t e).0))
        (λ b a n t e. (unless-some old.hash (v b a n) t e).1) in
    Sees-with hole w (lookup_remove all old.hash) c tx rest
      (λ u e. f u (get-remove all old.hash tx.hash u s.sorted e)) puts (λ d x. rw (free d x) refl)
  where
    hole : Places
    hole b a n = unless_hash old.hash (v b a n)

    other :
        (b : Bool) (a n : ℕ) (t : Transaction)
        → v b a n ≡ some t
        → (b ≡ c → a ≡ tx.sender → n ≡ tx.nonce → ⊥)
        → t.hash ≢ old.hash
    other b a n t e d x =
        let there = s.known b a n t e in
        let before = s.known c tx.sender tx.nonce old (sym o) in
        let same : t ≡ old = some_inj (sym there.0 ∙ ap (lookup_get all) x ∙ before.0) in
        let x : a ≡ tx.sender = sym there.1 ∙ ap (λ (r : Transaction). r.sender) same ∙ before.1 in
        let y : n ≡ tx.nonce = sym there.2 ∙ ap (λ (r : Transaction). r.nonce) same ∙ before.2 in
        let z = free b (λ e. d e x y) in cc

    puts : Puts hole w c tx
    puts b a n t e = elim (p b a n t e) [
      | inl (q, d) ↦ inl (some-unless old.hash (v b a n) t q (other b a n t q d), d)
      | inr r ↦ inr r
    ]
