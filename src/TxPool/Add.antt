-- ===== src/TxPool/Add.antt =====
-- `add` of core/tx_pool.go.
use kkchain.Base.{
  ℕ, ◌+◌, List, [], ◌∷◌, Option, none, some, Bool, true, false, not, ◌&&◌, if◌then◌else◌,
  Bool-cases, Option-cases, ◌≡◌, ◌⊎◌, refl, ap, subst, ◌∙◌, inl, inr, ltb_ℤ, pos, ◌-ℤ◌,
}
use kkchain.Pool.SortedMap.{Transaction, get}
use kkchain.Pool.TxList.{TxList, add, overlaps}
use kkchain.TxPool.Priced.{lookup_get, lookup_count, TxPricedList, underpriced, discard}
use kkchain.TxPool.Defs.{
  TxPool, TxError, underpriced_tx, known_transaction, Signer, list_of, enqueue_tx, remove_pooled,
  remove_all, add_to_lists, make_room, add_valid, validate_tx, add_pooled,
}
use kkchain.TxPool.Places.{Fresh}
use kkchain.TxPool.Moves.{place, OfList, add-Added}
use kkchain.TxPool.Sound.{IsSound, Whole}
use kkchain.TxPool.Enqueue.{Within, enqueue_tx-Enqueued}
use kkchain.TxPool.Remove.{remove_pooled-Removal}
use kkchain.TxPool.Stores.{Stores, add_queued-Stores, replace-Stores}

-- What add leaves: lists and lookup that agree both ways; on an error nothing known that was not;
-- without one, the transaction under its hash, and in the pending list or in the queue of its account.
pub record Stored (p : TxPool) (tx : Transaction) (r : TxPool × (TxError ⊎ Bool)) : Type 0 where
  pub whole : Whole r.0
  pub refused : (x : TxError) → r.1 ≡ inl x → Within r.0.all p.all
  pub stored :
      (b : Bool)
      → r.1 ≡ inr b
      → (lookup_get r.0.all tx.hash ≡ some tx)
        × ((place (r.0.pending tx.sender) tx.nonce ≡ some tx)
            ⊎ (place (r.0.queue tx.sender) tx.nonce ≡ some tx))

not_overlapping :
    (pending : TxList) (tx : Transaction)
    → overlaps pending tx ≡ false
    → get pending.txs tx.nonce ≡ none
unfolding overlaps
not_overlapping pending tx h = elim (Option-cases (get pending.txs tx.nonce)) [
  | inl x ↦ x
  | inr (t, x) ↦ let y : true ≡ false = simp x at h in cc
]

add_to_lists-Stores :
    (p : TxPool) (tx : Transaction) (local : Bool) (o : Option TxList)
    → IsSound p
    → lookup_get p.all tx.hash ≡ none
    → p.pending tx.sender ≡ o
    → Stores p tx (add_to_lists tx local o p)
unfolding add_to_lists
add_to_lists-Stores p tx local none s new e =
    let fresh : Fresh tx p.all = λ u x. cc in
    add_queued-Stores p tx local (enqueue_tx p tx)
      (enqueue_tx-Enqueued p tx s fresh (ap (λ m. place m tx.nonce) e))
add_to_lists-Stores p tx local (some pending) s new e = elim (Bool-cases (overlaps pending tx)) [
  | inl x ↦ rw x (
      replace-Stores p tx pending (add pending tx p.config.price_bump) s new e x (
        unfold list_of in
        (add-Added true (some pending) tx p.config.price_bump
          (subst OfList e (s.of_pending tx.sender)))))
  | inr x ↦
      let fresh : Fresh tx p.all = λ u y. cc in
      rw x (
        add_queued-Stores p tx local (enqueue_tx p tx) (
          enqueue_tx-Enqueued p tx s fresh
            (ap (λ m. place m tx.nonce) e ∙ not_overlapping pending tx x)))
]

remove_all-Within :
    (drop : List Transaction) (p : TxPool)
    → Whole p
    → Whole (remove_all p drop) × Within (remove_all p drop).all p.all
unfolding remove_all
remove_all-Within [] p s = (s, λ h u e. e)
remove_all-Within (tx ∷ txs) p s =
    let r = remove_pooled-Removal p tx.hash false s in
    let (a, b) = remove_all-Within txs (remove_pooled p tx.hash false) r.whole in
    (a, λ h u e. r.within h u (b h u e))

Whole-priced : (p : TxPool) (l : TxPricedList) → Whole p → Whole (record p { priced = l })
Whole-priced p l w = record { agrees = w.agrees; complete = w.complete; loose = w.loose }

make_room-Within :
    (tx : Transaction) (local : Bool) (p : TxPool)
    → Whole p
    → Whole (make_room tx local p).0 × Within (make_room tx local p).0.all p.all
unfolding make_room
make_room-Within tx local p s =
    go (ltb_ℤ (pos (lookup_count p.all)) (pos (p.config.global_slots + p.config.global_queue)))
      local (underpriced p.all p.priced tx p.locals).1 (underpriced p.all p.priced tx p.locals).0
  where
    slots : ℕ
    slots = p.config.global_slots + p.config.global_queue

    go :
        (room keeps refused : Bool) (cheap : TxPricedList)
        → let asked = if keeps then p else record p { priced = cheap } in
          let (rest, drop) =
            discard p.all asked.priced
              (pos (lookup_count p.all) -ℤ (pos slots -ℤ pos 1))
              p.locals in
          let r : TxPool × Bool =
            if room
            then (p, true)
            else if not keeps && refused
            then (asked, false)
            else (remove_all (record asked { priced = rest }) drop, true) in
          Whole r.0 × Within r.0.all p.all
    go true keeps refused cheap = (s, λ h u e. e)
    go false false true cheap = (Whole-priced p cheap s, λ h u e. e)
    go false false false cheap =
        let asked = record p { priced = cheap } in
        let (rest, drop) =
          discard p.all asked.priced (pos (lookup_count p.all) -ℤ (pos slots -ℤ pos 1)) p.locals in
        remove_all-Within drop (record asked { priced = rest }) (Whole-priced p rest s)
    go false true refused cheap =
        let (rest, drop) =
          discard p.all p.priced (pos (lookup_count p.all) -ℤ (pos slots -ℤ pos 1)) p.locals in
        remove_all-Within drop (record p { priced = rest }) (Whole-priced p rest s)

-- The whole of add from a result of its lists.
Stored-Within :
    (p q : TxPool) (tx : Transaction) (r : TxPool × (TxError ⊎ Bool))
    → Whole q
    → Within q.all p.all
    → Stores q tx r
    → Stored p tx r
Stored-Within p q tx r v w s =
    let (c, l) = s.keeps v.complete v.loose in
    record {
      whole = record { agrees = s.sound; complete = c; loose = l };
      refused = λ x y h u e. w h u (s.refused x y h u e);
      stored = s.stored;
    }

refused-Stored :
    (p q : TxPool) (tx : Transaction) (x : TxError)
    → Whole q
    → Within q.all p.all
    → Stored p tx (q, inl x)
refused-Stored p q tx x s w = record { whole = s; refused = λ y z. w; stored = λ b y. cc }

-- A pool whose lists and lookup agree both ways, every known transaction being listed, still is one
-- after add, whether the transaction is known, invalid, underpriced, or finds or does not find a place.
-- After an error nothing is known that was not before; without one, the transaction is known by its
-- hash and stands, under its nonce, in a list of its account.
pub add_pooled-Stored :
    (k : Signer) (p : TxPool) (tx : Transaction) (local : Bool)
    → Whole p
    → Stored p tx (add_pooled k p tx local)
unfolding add_pooled add_valid
add_pooled-Stored k p tx local s = elim (Option-cases (lookup_get p.all tx.hash)) [
  | inr (u, e) ↦ rw e (refused-Stored p p tx known_transaction s (λ h u e. e))
  | inl e ↦ rw e (checked e (validate_tx k p tx local))
]
  where
    still :
        Within (make_room tx local p).0.all p.all
        → lookup_get p.all tx.hash ≡ none
        → lookup_get (make_room tx local p).0.all tx.hash ≡ none
    still w new = elim (Option-cases (lookup_get (make_room tx local p).0.all tx.hash)) [
      | inl x ↦ x
      | inr (u, x) ↦ let y = w tx.hash u x in cc
    ]

    checked :
        lookup_get p.all tx.hash ≡ none
        → (o : Option TxError) → Stored p tx (add_valid tx local p o)
    checked new (some x) = refused-Stored p p tx x s (λ h u e. e)
    checked new none =
        let (q, room) = make_room tx local p in
        let (a, b) = make_room-Within tx local p s in
        elim (Bool-cases room) [
          | inl x ↦ rw x (
              Stored-Within p q tx (add_to_lists tx local (q.pending tx.sender) q) a b
                (add_to_lists-Stores q tx local (q.pending tx.sender) a.agrees (still b new) refl))
          | inr x ↦ rw x (refused-Stored p q tx underpriced_tx a b)
        ]
