-- ===== src/TxPool/Vacate.antt =====
-- A transaction leaves its list and the lookup in `removeTx` of core/tx_pool.go.
use kkchain.Base.{
  ℕ, Option, none, some, Bool, true, false, ◌==◌, if◌then◌else◌, Bool-cases, update, ◌≡◌, ◌≢◌, refl,
  ap, sym, subst, ◌∙◌, inl, inr, arith, some_inj,
}
use kkchain.Pool.SortedMap.{Transaction, get}
use kkchain.Pool.Upkeep.{Inv}
use kkchain.Pool.TxList.{TxList, remove_tx, is_empty_list}
use kkchain.TxPool.Priced.{TxLookup, lookup_get, lookup_remove}
use kkchain.TxPool.Defs.{TxPool, drop_queued}
use kkchain.TxPool.Places.{Places, Sees-remove}
use kkchain.TxPool.Lookup.{find_entry-delete_entry}
use kkchain.TxPool.Moves.{place, OfList, remove_tx-Dropped}
use kkchain.TxPool.Sound.{places, Agrees, queue_same}

-- The list, or none where it is empty, has what the list has, or less.
pub place-kept :
    (l : TxList) (n : ℕ) (t : Transaction)
    → place (if is_empty_list l then none else some l) n ≡ some t
    → get l.txs n ≡ some t
place-kept l n t e = elim (Bool-cases (is_empty_list l)) [
  | inl x ↦ let z : none ≡ some t = simp x at e in cc
  | inr x ↦ simp x at e
]

pub of_kept : (l : TxList) → Inv l.txs → OfList (if is_empty_list l then none else some l)
of_kept l v = elim (Bool-cases (is_empty_list l)) [ inl x ↦ rw x tt | inr x ↦ rw x v ]

-- Nothing of an account stands under a nonce.
abbrev pub Vacant : Places → Bool → Transaction → Type 0
Vacant v b tx = (t : Transaction) → v b tx.sender tx.nonce ≡ some t → ⊥

-- The lists after a transaction left the list `b` of its account.
pub vacate :
    (m : ℕ → Option TxList) (s k : ℕ) (l : TxList)
    → ((n : ℕ) (t : Transaction) → get l.txs n ≡ some t → (place (m s) n ≡ some t) × (n ≢ k))
    → (t : Transaction) → place (update m s (if is_empty_list l then none else some l) s) k ≡ some t
    → ⊥
vacate m s k l h t e =
    let x : (s == s) ≡ true = ground arith in
    let f : place (if is_empty_list l then none else some l) k ≡ some t = simp x at e in
    (h k t (place-kept l k t f)).1 refl

-- The queue without a transaction that is not pending.
pub drop_queued-Agrees :
    (p : TxPool) (tx : Transaction) (all : TxLookup)
    → Agrees p.pending p.queue all
    → Vacant (places p.pending p.queue) true tx
    → let q = drop_queued tx (p.queue tx.sender) p in
      Agrees q.pending q.queue all
      × (q.all ≡ p.all)
      × ((b : Bool) → Vacant (places q.pending q.queue) b tx)
unfolding drop_queued
drop_queued-Agrees p tx all s v = go (p.queue tx.sender) refl
  where
    go :
        (o : Option TxList)
        → p.queue tx.sender ≡ o
        → let q = drop_queued tx o p in
          Agrees q.pending q.queue all
          × (q.all ≡ p.all)
          × ((b : Bool) → Vacant (places q.pending q.queue) b tx)
    go none e = (s, refl, none_left)
      where
        none_left : (b : Bool) → Vacant (places p.pending p.queue) b tx
        none_left true t x = v t x
        none_left false t x =
            let y : place none tx.nonce ≡ some t = ap (λ o. place o tx.nonce) (sym e) ∙ x in cc
    go (some l) e =
        let d = remove_tx-Dropped l tx (subst OfList e (s.of_queue tx.sender)) in
        let o = if is_empty_list (remove_tx l tx).0 then none else some (remove_tx l tx).0 in
        let kept : (n : ℕ) (t : Transaction)
            → get (remove_tx l tx).0.txs n ≡ some t
            → (place (p.queue tx.sender) n ≡ some t) × (n ≢ tx.nonce) =
          λ n t x. let (y, z) = d.kept n t x in (ap (λ m. place m n) e ∙ y, z) in
        (
          queue_same p.pending p.queue all tx.sender o s (of_kept (remove_tx l tx).0 d.inv)
              (λ n t x. (kept n t (place-kept (remove_tx l tx).0 n t x)).0),
          refl,
          left kept,
        )
      where
        left :
            ((n : ℕ) (t : Transaction)
              → get (remove_tx l tx).0.txs n ≡ some t
              → (place (p.queue tx.sender) n ≡ some t) × (n ≢ tx.nonce))
            → (b : Bool)
            → Vacant
                (places p.pending (
                  update p.queue tx.sender
                    (if is_empty_list (remove_tx l tx).0 then none else some (remove_tx l tx).0)))
                b
                tx
        left kept true = v
        left kept false = vacate p.queue tx.sender tx.nonce (remove_tx l tx).0 kept

-- A transaction that left its lists leaves the lookup.
pub forget :
    (pending queue : ℕ → Option TxList) (all : TxLookup) (tx : Transaction) (hash : ℕ)
    → Agrees pending queue all
    → lookup_get all hash ≡ some tx
    → ((b : Bool) → Vacant (places pending queue) b tx)
    → Agrees pending queue (lookup_remove all hash)
forget pending queue all tx hash g e v = record {
  sees = Sees-remove (places pending queue) all hash g.sees gone;
  of_pending = g.of_pending;
  of_queue = g.of_queue;
}
  where
    gone :
        (b : Bool) (a n : ℕ) (t : Transaction) → places pending queue b a n ≡ some t → t.hash ≢ hash
    gone b a n t x h =
        let (known, sender, nonce) = g.sees.known b a n t x in
        let same : t ≡ tx = some_inj (sym known ∙ ap (lookup_get all) h ∙ e) in
        let y : a ≡ tx.sender = sym sender ∙ ap (λ (r : Transaction). r.sender) same in
        let z : n ≡ tx.nonce = sym nonce ∙ ap (λ (r : Transaction). r.nonce) same in
        v b t (
          ap (places pending queue b tx.sender) (sym z)
          ∙ ap (λ k. places pending queue b k n) (sym y)
          ∙ x)

pub get-removed :
    (all : TxLookup) (pending queue : ℕ → Option TxList) (hash : ℕ)
    → Agrees pending queue all
    → lookup_get (lookup_remove all hash) hash ≡ none
get-removed all pending queue hash g =
    let x : (hash == hash) ≡ true = ground arith in
    find_entry-delete_entry hash hash all g.sees.sorted ∙ rw x refl
