-- ===== src/TxPool/Demote.antt =====
-- `demoteUnexecutables` of core/tx_pool.go. The accounts that a range visits are an argument, in the
-- order of the visit; `none` is a panic.
use kkchain.Base.{
  ℕ, List, [], ◌∷◌, Option, none, some, not, ◌&&◌, if◌then◌else◌, ltb, update, ◌>>=◌,
}
use kkchain.Pool.SortedMap.{Transaction, get}
use kkchain.Pool.TxList.{
  TxList, forward_list, filter_list, cap_list, length_list, is_empty_list, is_some,
}
use kkchain.TxPool.Defs.{TxPool, discard_old, enqueue_tx, enqueue_all}

-- The loops over what a list dropped: `forget_all` and `forget_some` take it out of the lookup,
-- `enqueue_some` puts it into the queue. A nil transaction panics.
unfoldable pub forget_all : TxPool → List Transaction → TxPool
unfolding discard_old
forget_all p [] = p
forget_all p (tx ∷ txs) = forget_all (discard_old (some tx) p) txs

unfoldable pub forget_some : TxPool → List (Option Transaction) → Option TxPool
unfolding discard_old
forget_some p [] = some p
forget_some p (none ∷ txs) = none
forget_some p (some tx ∷ txs) = forget_some (discard_old (some tx) p) txs

unfoldable pub enqueue_some : TxPool → List (Option Transaction) → Option TxPool
unfolding enqueue_tx
enqueue_some p [] = some p
enqueue_some p (none ∷ txs) = none
enqueue_some p (some tx ∷ txs) = enqueue_some (enqueue_tx p tx).0 txs

abbrev pub with_pending : TxPool → ℕ → TxList → TxPool
with_pending p addr l = record p { pending = update p.pending addr (some l) }

-- The transactions below the nonce of the account go.
unfoldable pub demote_old : TxPool → ℕ → TxList → Option (TxPool × TxList)
unfolding forget_some
demote_old p addr l = forward_list l (p.nonce_of addr) >>= λ r.
    forget_some (with_pending p addr r.0) r.1 >>= λ q. some (q, r.0)

-- What the account cannot pay goes, and what stands behind it is queued.
unfoldable pub demote_costly : ℕ → TxPool × TxList → TxPool × TxList
unfolding forget_all enqueue_all
demote_costly addr (p, l) =
    let (l', drops, invalids) = filter_list l (p.balance_of addr) p.max_gas in
    (enqueue_all (forget_all (with_pending p addr l') drops) invalids, l')

-- After a gap in front, all are queued.
unfoldable pub demote_gap : ℕ → TxPool × TxList → Option (TxPool × TxList)
unfolding enqueue_some
demote_gap addr (p, l) =
    let capped =
      cap_list l 0 >>= λ r. enqueue_some (with_pending p addr r.0) r.1 >>= λ q. some (q, r.0) in
    if ltb 0 (length_list l) && not (is_some (get l.txs (p.nonce_of addr)))
    then capped
    else some (p, l)

unfoldable pub drop_empty : ℕ → TxPool × TxList → TxPool
drop_empty addr (p, l) =
    if is_empty_list l
    then record p { pending = update p.pending addr none; beats = update p.beats addr none }
    else p

-- The round of one account.
unfoldable pub demote_from : TxPool → ℕ → Option TxList → Option TxPool
unfolding demote_old demote_costly demote_gap drop_empty
demote_from p addr none = some p
demote_from p addr (some l) = demote_old p addr l >>= λ r.
    demote_gap addr (demote_costly addr r) >>= λ q. some (drop_empty addr q)

-- `demoteUnexecutables`
unfoldable pub demote_unexecutables : TxPool → List ℕ → Option TxPool
unfolding demote_from
demote_unexecutables p [] = some p
demote_unexecutables p (addr ∷ addrs) =
    demote_from p addr (p.pending addr) >>= λ q. demote_unexecutables q addrs
