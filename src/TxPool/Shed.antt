-- ===== src/TxPool/Shed.antt =====
-- Transactions that leave the pending list of an account and the lookup of core/tx_pool.go.
use kkchain.Base.{
  ℕ, List, [], ◌∷◌, map, Option, none, some, Bool, true, false, ◌==◌, update, ◌≡◌, ◌≢◌, refl, ap,
  sym, ◌∙◌, arith, some_inj,
}
use kkchain.Pool.SortedMap.{Transaction, get}
use kkchain.Pool.Upkeep.{Inv}
use kkchain.Pool.TxList.{TxList}
use kkchain.TxPool.Priced.{TxLookup, lookup_get, lookup_remove}
use kkchain.TxPool.Defs.{TxPool, discard_old}
use kkchain.TxPool.Demote.{forget_all, forget_some}
use kkchain.TxPool.Places.{Sees-remove}
use kkchain.TxPool.Moves.{place}
use kkchain.TxPool.Sound.{places, Agrees, pending_same}

abbrev pub lookup_minus : List Transaction → TxLookup → TxLookup
lookup_minus [] all = all
lookup_minus (tx ∷ txs) all = lookup_minus txs (lookup_remove all tx.hash)

-- Each transaction of a list stood pending under its nonce, and does not any more.
abbrev pub Leaves : Option TxList → TxList → List Transaction → Type 0
Leaves o l [] = Unit {0}
Leaves o l (t ∷ ts) = ((place o t.nonce ≡ some t) × (get l.txs t.nonce ≡ none)) × Leaves o l ts

without_hashes :
    (pending queue : ℕ → Option TxList) (before all : TxLookup) (s : ℕ) (l : TxList)
    (ts : List Transaction)
    → Agrees pending queue before
    → Agrees (update pending s (some l)) queue all
    → ((b : Bool) (a n : ℕ) (t : Transaction)
        → places (update pending s (some l)) queue b a n ≡ some t
        → lookup_get before t.hash ≡ some t)
    → Leaves (pending s) l ts
    → Agrees (update pending s (some l)) queue (lookup_minus ts all)
without_hashes pending queue before all s l [] g h k x = h
without_hashes pending queue before all s l (d ∷ ds) g h k ((was, gone), x) =
    without_hashes pending queue before (lookup_remove all d.hash) s l ds g
      (record {
        sees = Sees-remove (places (update pending s (some l)) queue) all d.hash h.sees other;
        of_pending = h.of_pending;
        of_queue = h.of_queue;
      })
      k x
  where
    vacant :
        (b : Bool) (t : Transaction)
        → places (update pending s (some l)) queue b s d.nonce ≡ some t
        → ⊥
    vacant true t e =
        let y : (s == s) ≡ true = ground arith in
        let z : get l.txs d.nonce ≡ some t = simp y at e in cc
    vacant false t e = g.sees.apart s d.nonce d t was e

    other :
        (b : Bool) (a n : ℕ) (t : Transaction)
        → places (update pending s (some l)) queue b a n ≡ some t
        → t.hash ≢ d.hash
    other b a n t e y =
        let (known, sender, nonce) = g.sees.known true s d.nonce d was in
        let same : t ≡ d = some_inj (sym (k b a n t e) ∙ ap (lookup_get before) y ∙ known) in
        let (_, sender', nonce') = h.sees.known b a n t e in
        let p : a ≡ s = sym sender' ∙ ap (λ (r : Transaction). r.sender) same ∙ sender in
        let q : n ≡ d.nonce = sym nonce' ∙ ap (λ (r : Transaction). r.nonce) same in
        vacant b t (
          ap (places (update pending s (some l)) queue b s) (sym q)
          ∙ ap (λ j. places (update pending s (some l)) queue b j n) (sym p)
          ∙ e)

-- A shorter pending list, and a lookup without what left it.
pub shed :
    (pending queue : ℕ → Option TxList) (all : TxLookup) (s : ℕ) (l : TxList)
    (ts : List Transaction)
    → Agrees pending queue all
    → Inv l.txs
    → ((n : ℕ) (t : Transaction) → get l.txs n ≡ some t → place (pending s) n ≡ some t)
    → Leaves (pending s) l ts
    → Agrees (update pending s (some l)) queue (lookup_minus ts all)
shed pending queue all s l ts g v h x =
    let w = pending_same pending queue all s (some l) g v h in
    without_hashes pending queue all all s l ts g w (λ b a n t e. (w.sees.known b a n t e).0) x

-- The loops leave the lists.
pub forget_all-fields :
    (ts : List Transaction) (p : TxPool)
    → let q = forget_all p ts in
      (q.pending ≡ p.pending) × (q.queue ≡ p.queue) × (q.all ≡ lookup_minus ts p.all)
unfolding forget_all discard_old
forget_all-fields [] p = (refl, refl, refl)
forget_all-fields (t ∷ ts) p = forget_all-fields ts (discard_old (some t) p)

pub forget_some-map :
    (ts : List Transaction) (p : TxPool) → forget_some p (map some ts) ≡ some (forget_all p ts)
unfolding forget_some forget_all
forget_some-map [] p = refl
forget_some-map (t ∷ ts) p = forget_some-map ts (discard_old (some t) p)
