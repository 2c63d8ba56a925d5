-- ===== src/TxPool/Sound.antt =====
-- The invariant of `TxPool` of core/tx_pool.go, and `enqueueTx`, `promoteTx` and the replacement of a
-- pending transaction under it.
use kkchain.Base.{
  [], ℕ, Option, none, some, Bool, true, false, ◌==◌, if◌then◌else◌, Bool-cases, Option-cases,
  update, ◌≡◌, ◌≢◌, ◌⊎◌, refl, ap, sym, ◌∙◌, inl, inr, arith, some_inj,
}
use kkchain.Pool.SortedMap.{Transaction, get}
use kkchain.Pool.Upkeep.{Inv}
use kkchain.Pool.TxList.{new_tx_list, add, TxList}
use kkchain.TxPool.Priced.{TxLookup, lookup_get}
use kkchain.TxPool.Defs.{list_of, TxPool, discard_old, know_from, know}
use kkchain.TxPool.Places.{
  Places, Sees, Shrinks, Puts, Fresh, lookup_with, lookup_without, Sees-Shrinks, Sees-put,
}
use kkchain.TxPool.Complete.{Complete}
use kkchain.TxPool.Moves.{place, OfList, strict-add}

abbrev pub places : (ℕ → Option TxList) → (ℕ → Option TxList) → Places
places pending queue true a n = place (pending a) n
places pending queue false a n = place (queue a) n

-- The lists of a pool and its lookup agree, and each list is well formed.
pub record Agrees (pending queue : ℕ → Option TxList) (all : TxLookup) : Type 0 where
  pub sees : Sees (places pending queue) all
  pub of_pending : (a : ℕ) → OfList (pending a)
  pub of_queue : (a : ℕ) → OfList (queue a)

abbrev pub IsSound : TxPool → Type 0
IsSound p = Agrees p.pending p.queue p.all

-- What `know` and `discard_old` do to the lookup; they leave the lists.
pub lookup-know :
    (tx : Transaction) (old : Option Transaction) (p : TxPool)
    → let q = know tx (discard_old old p) in
      (q.all ≡ lookup_with tx (lookup_without old p.all))
      × (q.pending ≡ p.pending)
      × (q.queue ≡ p.queue)
unfolding know know_from discard_old
lookup-know tx none p = elim (Option-cases (lookup_get p.all tx.hash)) [
  | inl e ↦ rw e (refl, refl, refl)
  | inr (u, e) ↦ rw e (refl, refl, refl)
]
lookup-know tx (some old) p =
    elim (Option-cases (lookup_get (lookup_without (some old) p.all) tx.hash)) [
      | inl e ↦ rw e (refl, refl, refl)
      | inr (u, e) ↦ rw e (refl, refl, refl)
    ]

of_update :
    (m : ℕ → Option TxList) (s : ℕ) (o : Option TxList)
    → ((a : ℕ) → OfList (m a))
    → OfList o
    → (a : ℕ) → OfList (update m s o a)
of_update m s o h v a = elim (Bool-cases (a == s)) [ inl x ↦ rw x v | inr x ↦ rw x (h a) ]

-- A list of the account is replaced by one with the same transactions, or fewer.
pub place-update :
    (m : ℕ → Option TxList) (s : ℕ) (o : Option TxList)
    → ((n : ℕ) (t : Transaction) → place o n ≡ some t → place (m s) n ≡ some t)
    → (a n : ℕ) (t : Transaction) → place (update m s o a) n ≡ some t
    → place (m a) n ≡ some t
place-update m s o h a n t e = elim (Bool-cases (a == s)) [
  | inl x ↦
      let same : a ≡ s = ground (arith, x) in
      let f : place o n ≡ some t = simp x at e in ap (λ k. place (m k) n) same ∙ h n t f
  | inr x ↦ simp x at e
]

-- A list of the account is replaced by one with a transaction more.
place-put :
    (m : ℕ → Option TxList) (s : ℕ) (l : TxList) (tx : Transaction)
    → ((n : ℕ) → get l.txs n ≡ (if tx.nonce == n then some tx else place (m s) n))
    → (a n : ℕ) (t : Transaction) → place (update m s (some l) a) n ≡ some t
    → ((place (m a) n ≡ some t) × (a ≡ s → n ≡ tx.nonce → ⊥))
      ⊎ ((t ≡ tx) × (a ≡ s) × (n ≡ tx.nonce))
place-put m s l tx h a n t e = elim (Bool-cases (a == s)) [
  | inr x ↦ inl (simp x at e, λ y z. ground (arith, x, y))
  | inl x ↦
      let same : a ≡ s = ground (arith, x) in
      let f : get l.txs n ≡ some t = simp x at e in
      let g : (if tx.nonce == n then some tx else place (m s) n) ≡ some t = sym (h n) ∙ f in
      elim (Bool-cases (tx.nonce == n)) [
        | inl y ↦ inr (sym (some_inj (simp y at g)), same, ground (arith, y))
        | inr y ↦
            let kept : place (m s) n ≡ some t = simp y at g in
            inl (ap (λ k. place (m k) n) same ∙ kept, λ v z. ground (arith, y, z))
      ]
]

-- A transaction enters the queue.
pub queue_put :
    (pending queue : ℕ → Option TxList) (all : TxLookup) (tx : Transaction) (l : TxList)
    → Agrees pending queue all
    → Fresh tx all
    → place (pending tx.sender) tx.nonce ≡ none
    → Inv l.txs
    → ((n : ℕ) → get l.txs n ≡ (if tx.nonce == n then some tx else place (queue tx.sender) n))
    → Agrees pending
        (update queue tx.sender (some l))
        (lookup_with tx (lookup_without (place (queue tx.sender) tx.nonce) all))
queue_put pending queue all tx l s f free v h = record {
  sees =
      Sees-put (places pending queue) (places pending (update queue tx.sender (some l))) all false
        tx (place (queue tx.sender) tx.nonce) s.sees f puts empty refl;
  of_pending = s.of_pending;
  of_queue = of_update queue tx.sender (some l) s.of_queue v;
}
  where
    puts : Puts (places pending queue) (places pending (update queue tx.sender (some l))) false tx
    puts true a n t e = inl (e, λ x y z. cc)
    puts false a n t e = elim (place-put queue tx.sender l tx h a n t e) [
      | inl (o, d) ↦ inl (o, λ x y z. d y z)
      | inr (x, y, z) ↦ inr (x, refl, y, z)
    ]

    empty : (d : Bool) → d ≢ false → places pending queue d tx.sender tx.nonce ≡ none
    empty true x = free
    empty false x = absurd (x refl)

-- A transaction enters the pending list.
pub pending_put :
    (pending queue : ℕ → Option TxList) (all : TxLookup) (tx : Transaction) (l : TxList)
    → Agrees pending queue all
    → Fresh tx all
    → place (queue tx.sender) tx.nonce ≡ none
    → Inv l.txs
    → ((n : ℕ) → get l.txs n ≡ (if tx.nonce == n then some tx else place (pending tx.sender) n))
    → Agrees
        (update pending tx.sender (some l))
        queue
        (lookup_with tx (lookup_without (place (pending tx.sender) tx.nonce) all))
pending_put pending queue all tx l s f free v h = record {
  sees =
      Sees-put (places pending queue) (places (update pending tx.sender (some l)) queue) all true tx
        (place (pending tx.sender) tx.nonce) s.sees f puts empty refl;
  of_pending = of_update pending tx.sender (some l) s.of_pending v;
  of_queue = s.of_queue;
}
  where
    puts : Puts (places pending queue) (places (update pending tx.sender (some l)) queue) true tx
    puts false a n t e = inl (e, λ x y z. cc)
    puts true a n t e = elim (place-put pending tx.sender l tx h a n t e) [
      | inl (o, d) ↦ inl (o, λ x y z. d y z)
      | inr (x, y, z) ↦ inr (x, refl, y, z)
    ]

    empty : (d : Bool) → d ≢ true → places pending queue d tx.sender tx.nonce ≡ none
    empty false x = free
    empty true x = absurd (x refl)

-- An account's list that Add refused to change.
pub queue_same :
    (pending queue : ℕ → Option TxList) (all : TxLookup) (s : ℕ) (o : Option TxList)
    → Agrees pending queue all
    → OfList o
    → ((n : ℕ) (t : Transaction) → place o n ≡ some t → place (queue s) n ≡ some t)
    → Agrees pending (update queue s o) all
queue_same pending queue all s o g v h = record {
  sees = Sees-Shrinks (places pending queue) (places pending (update queue s o)) all g.sees shrinks;
  of_pending = g.of_pending;
  of_queue = of_update queue s o g.of_queue v;
}
  where
    shrinks : Shrinks (places pending queue) (places pending (update queue s o))
    shrinks true a n t e = e
    shrinks false a n t e = place-update queue s o h a n t e

pub pending_same :
    (pending queue : ℕ → Option TxList) (all : TxLookup) (s : ℕ) (o : Option TxList)
    → Agrees pending queue all
    → OfList o
    → ((n : ℕ) (t : Transaction) → place o n ≡ some t → place (pending s) n ≡ some t)
    → Agrees (update pending s o) queue all
pending_same pending queue all s o g v h = record {
  sees = Sees-Shrinks (places pending queue) (places (update pending s o) queue) all g.sees shrinks;
  of_pending = of_update pending s o g.of_pending v;
  of_queue = g.of_queue;
}
  where
    shrinks : Shrinks (places pending queue) (places (update pending s o) queue)
    shrinks false a n t e = e
    shrinks true a n t e = place-update pending s o h a n t e

-- The places beside the one of a transaction that is put.
pub place-other :
    (m : ℕ → Option TxList) (s : ℕ) (l : TxList) (tx : Transaction)
    → ((n : ℕ) → get l.txs n ≡ (if tx.nonce == n then some tx else place (m s) n))
    → (a n : ℕ) → (a ≡ s → n ≡ tx.nonce → ⊥)
    → place (update m s (some l) a) n ≡ place (m a) n
place-other m s l tx h a n d = elim (Bool-cases (a == s)) [
  | inr x ↦ rw x refl
  | inl x ↦
      let same : a ≡ s = ground (arith, x) in
      elim (Bool-cases (tx.nonce == n)) [
        | inl y ↦ absurd (d same (ground (arith, y)))
        | inr y ↦ rw x (h n ∙ rw y (ap (λ k. place (m k) n) (sym same)))
      ]
]

pub place-here :
    (m : ℕ → Option TxList) (s : ℕ) (l : TxList) (tx : Transaction)
    → ((n : ℕ) → get l.txs n ≡ (if tx.nonce == n then some tx else place (m s) n))
    → place (update m s (some l) s) tx.nonce ≡ some tx
place-here m s l tx h =
    let x : (s == s) ≡ true = ground arith in
    let y : (tx.nonce == tx.nonce) ≡ true = ground arith in rw x (h tx.nonce ∙ rw y refl)

-- A list that has the same transactions.
pub place-same :
    (m : ℕ → Option TxList) (s : ℕ) (o : Option TxList)
    → ((n : ℕ) → place o n ≡ place (m s) n)
    → (a n : ℕ) → place (update m s o a) n ≡ place (m a) n
place-same m s o h a n = elim (Bool-cases (a == s)) [
  | inr x ↦ rw x refl
  | inl x ↦ let same : a ≡ s = ground (arith, x) in rw x (h n ∙ ap (λ k. place (m k) n) (sym same))
]

-- A list of the future queue is not strict.
abbrev pub Loose : Option TxList → Type 0
Loose none = Unit {0}
Loose (some l) = l.strict ≡ false

pub Loose-update :
    (m : ℕ → Option TxList) (s : ℕ) (o : Option TxList)
    → ((a : ℕ) → Loose (m a))
    → Loose o
    → (a : ℕ) → Loose (update m s o a)
Loose-update m s o h v a = elim (Bool-cases (a == s)) [ inl x ↦ rw x v | inr x ↦ rw x (h a) ]

pub add-Loose :
    (o : Option TxList) (tx : Transaction) (bump : ℕ)
    → Loose o
    → (add (list_of false o) tx bump).0.strict ≡ false
unfolding list_of new_tx_list
add-Loose none tx bump h = strict-add (list_of false none) tx bump
add-Loose (some l) tx bump h = strict-add l tx bump ∙ h

-- A pool whose lists and lookup agree both ways: what is listed is known under its hash, belongs to its
-- account and has its nonce, no nonce is both pending and queued, and what is known is listed.
pub record Whole (p : TxPool) : Type 0 where
  pub agrees : IsSound p
  pub complete : Complete (places p.pending p.queue) p.all []
  pub loose : (a : ℕ) → Loose (p.queue a)
