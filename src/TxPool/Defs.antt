-- ===== src/TxPool/Defs.antt =====
-- `TxPool` of core/tx_pool.go: what a call does to the transactions of all accounts. The states of the
-- chain are read through `nonce_of` and `balance_of`; `pendingState` is the function that its GetNonce
-- answers. The feed and the log lines are left out; the journal is the list of what is written to it.
use kkchain.Base.{
  ℕ, ◌+◌, ◌%◌, ◌^◌, List, [], ◌∷◌, ◌++◌, Option, none, some, Bool, true, false, not, ◌&&◌, ◌||◌,
  ◌⊎◌, inl, inr, if◌then◌else◌, ltb, update, ℤ, pos, ◌-ℤ◌, ltb_ℤ,
}
use kkchain.Pool.SortedMap.{Transaction, cost}
use kkchain.Pool.TxList.{TxList, new_tx_list, overlaps, add, remove_tx, is_empty_list, is_some}
use kkchain.Transition.Defs.{intrinsic_gas}
use kkchain.TxPool.Priced.{
  TxLookup, lookup_get, lookup_count, lookup_add, lookup_remove, TxPricedList, put_priced, removed,
  underpriced, discard,
}
use mathlib.Core.Option

pub data TxError : Type 0 where
  known_transaction oversized_data negative_value gas_limit_exceeded invalid_sender : TxError
  underpriced_tx nonce_too_low insufficient_funds out_of_gas intrinsic_gas_low : TxError
  replace_underpriced : TxError

pub record TxPoolConfig : Type 0 where
  pub price_bump : ℕ
  pub global_slots : ℕ
  pub global_queue : ℕ

-- What the packages types and crypto answer about a transaction.
pub record Signer : Type 0 where
  pub size : Transaction → ℕ
  pub is_signed : Transaction → Bool

pub record TxPool : Type 0 where
  pub config : TxPoolConfig
  pub gas_price : ℤ
  pub nonce_of : ℕ → ℕ
  pub balance_of : ℕ → ℤ
  pub pending_nonce : ℕ → ℕ
  pub max_gas : ℕ
  pub locals : ℕ → Bool
  pub journal : Option (List Transaction)
  pub pending : ℕ → Option TxList
  pub queue : ℕ → Option TxList
  pub beats : ℕ → Option ℕ
  pub all : TxLookup
  pub priced : TxPricedList

-- The list of an account, made if there is none.
unfoldable pub list_of : Bool → Option TxList → TxList
list_of strict none = new_tx_list strict
list_of strict (some l) = l

-- `pool.all.Remove(old.Hash())` and `pool.priced.Removed()` for a transaction that is not nil
unfoldable pub discard_old : Option Transaction → TxPool → TxPool
discard_old none p = p
discard_old (some old) p =
    let all = lookup_remove p.all old.hash in record p { all = all; priced = removed all p.priced }

-- The transaction goes among all, where it is not yet.
unfoldable pub know_from : Option Transaction → Transaction → TxPool → TxPool
know_from none tx p = record p { all = lookup_add p.all tx; priced = put_priced p.priced tx }
know_from (some _) tx p = p

unfoldable pub know : Transaction → TxPool → TxPool
unfolding know_from
know tx p = know_from (lookup_get p.all tx.hash) tx p

-- `enqueueTx`
unfoldable pub enqueue_tx : TxPool → Transaction → TxPool × (TxError ⊎ Bool)
unfolding list_of discard_old know
enqueue_tx p tx =
    let (l, inserted, old) = add (list_of false (p.queue tx.sender)) tx p.config.price_bump in
    let p' = record p { queue = update p.queue tx.sender (some l) } in
    if inserted
    then (know tx (discard_old old p'), inr (is_some old))
    else (p', inl replace_underpriced)

-- `promoteTx`, at the time `now`
unfoldable pub promote_tx : TxPool → ℕ → Transaction → ℕ → TxPool × Bool
unfolding list_of discard_old know
promote_tx p addr tx now =
    let (l, inserted, old) = add (list_of true (p.pending addr)) tx p.config.price_bump in
    let p' = record p { pending = update p.pending addr (some l) } in
    let known = know tx (discard_old old p') in
    if inserted
    then (
      record known {
        beats = update known.beats addr (some now);
        pending_nonce = update known.pending_nonce addr ((tx.nonce + 1) % (2 ^ 64));
      },
      true,
    )
    else (discard_old (some tx) p', false)

-- The invalidated transactions go back to the queue.
unfoldable pub enqueue_all : TxPool → List Transaction → TxPool
unfolding enqueue_tx
enqueue_all p [] = p
enqueue_all p (tx ∷ txs) = enqueue_all (enqueue_tx p tx).0 txs

-- The future queue without the transaction.
unfoldable pub drop_queued : Transaction → Option TxList → TxPool → TxPool
drop_queued tx none p = p
drop_queued tx (some future) p =
    let (l, _, _) = remove_tx future tx in
    record p { queue = update p.queue tx.sender (if is_empty_list l then none else some l) }

-- The pending list without the transaction, where it has it.
unfoldable pub drop_pending : Transaction → Option TxList → TxPool → TxPool
unfolding drop_queued enqueue_all
drop_pending tx none p = drop_queued tx (p.queue tx.sender) p
drop_pending tx (some pending) p =
    let (l, found, invalids) = remove_tx pending tx in
    let empty = is_empty_list l in
    let shorter = record p {
      pending = update p.pending tx.sender (if empty then none else some l);
      beats = if empty then update p.beats tx.sender none else p.beats;
    } in
    let postponed = enqueue_all shorter invalids in
    if found
    then record postponed {
      pending_nonce =
          if ltb tx.nonce (postponed.pending_nonce tx.sender)
          then update postponed.pending_nonce tx.sender tx.nonce
          else postponed.pending_nonce;
    }
    else drop_queued tx (p.queue tx.sender) p

unfoldable pub remove_known : TxPool → ℕ → Bool → Option Transaction → TxPool
unfolding drop_pending
remove_known p hash outofbound none = p
remove_known p hash outofbound (some tx) =
    let all = lookup_remove p.all hash in
    drop_pending tx (p.pending tx.sender)
      (record p { all = all; priced = if outofbound then removed all p.priced else p.priced })

-- `removeTx`
unfoldable pub remove_pooled : TxPool → ℕ → Bool → TxPool
unfolding remove_known
remove_pooled p hash outofbound = remove_known p hash outofbound (lookup_get p.all hash)

abbrev check_gas : Transaction → Option ℕ → Option TxError
check_gas tx none = some out_of_gas
check_gas tx (some gas) = if ltb tx.gas_limit gas then some intrinsic_gas_low else none

-- `validateTx`; `none` is a valid transaction.
unfoldable pub validate_tx : Signer → TxPool → Transaction → Bool → Option TxError
unfolding intrinsic_gas
validate_tx k p tx local =
    if ltb 32768 (k.size tx)
    then some oversized_data
    else if ltb_ℤ tx.amount (pos 0)
    then some negative_value
    else if ltb p.max_gas tx.gas_limit
    then some gas_limit_exceeded
    else if not (k.is_signed tx)
    then some invalid_sender
    else if not (local || p.locals tx.sender) && ltb_ℤ tx.gas_price p.gas_price
    then some underpriced_tx
    else if ltb tx.nonce (p.nonce_of tx.sender)
    then some nonce_too_low
    else if ltb_ℤ (p.balance_of tx.sender) (cost tx)
    then some insufficient_funds
    else check_gas tx (intrinsic_gas tx.payload (not (is_some tx.receiver)))

-- `journalTx`
unfoldable pub journal_tx : TxPool → ℕ → Transaction → TxPool
journal_tx p from tx =
    if p.locals from
    then record p { journal = Option.map (λ txs. txs ++ (tx ∷ [])) p.journal }
    else p

unfoldable pub remove_all : TxPool → List Transaction → TxPool
unfolding remove_pooled
remove_all p [] = p
remove_all p (tx ∷ txs) = remove_all (remove_pooled p tx.hash false) txs

-- The end of `add`: a new transaction that replaces no pending one.
unfoldable pub add_queued :
    Transaction → Bool → TxPool × (TxError ⊎ Bool) → TxPool × (TxError ⊎ Bool)
unfolding journal_tx
add_queued tx local (p, inl error) = (p, inl error)
add_queued tx local (p, inr replace) = (
  journal_tx (if local then record p { locals = update p.locals tx.sender true } else p) tx.sender
      tx,
  inr replace,
)

-- The middle of `add`: a new transaction for which there is room.
unfoldable pub add_to_lists :
    Transaction → Bool → Option TxList → TxPool → TxPool × (TxError ⊎ Bool)
unfolding add_queued enqueue_tx discard_old journal_tx know_from
add_to_lists tx local none p = add_queued tx local (enqueue_tx p tx)
add_to_lists tx local (some pending) p =
    let (l, inserted, old) = add pending tx p.config.price_bump in
    let replaced = discard_old old (record p { pending = update p.pending tx.sender (some l) }) in
    if not (overlaps pending tx)
    then add_queued tx local (enqueue_tx p tx)
    else if inserted
    then (journal_tx (know_from none tx replaced) tx.sender tx, inr (is_some old))
    else (p, inl replace_underpriced)

-- The part of `add` that makes room in a full pool.
unfoldable pub make_room : Transaction → Bool → TxPool → TxPool × Bool
unfolding remove_all
make_room tx local p =
    let slots = pos (p.config.global_slots + p.config.global_queue) in
    let (cheap, refused) = underpriced p.all p.priced tx p.locals in
    let asked = if local then p else record p { priced = cheap } in
    let (rest, drop) =
      discard p.all asked.priced (pos (lookup_count p.all) -ℤ (slots -ℤ pos 1)) p.locals in
    if ltb_ℤ (pos (lookup_count p.all)) slots
    then (p, true)
    else if not local && refused
    then (asked, false)
    else (remove_all (record asked { priced = rest }) drop, true)

unfoldable pub add_valid : Transaction → Bool → TxPool → Option TxError → TxPool × (TxError ⊎ Bool)
unfolding make_room add_to_lists
add_valid tx local p (some error) = (p, inl error)
add_valid tx local p none =
    let (p', room) = make_room tx local p in
    if room then add_to_lists tx local (p'.pending tx.sender) p' else (p', inl underpriced_tx)

-- `add`
unfoldable pub add_pooled : Signer → TxPool → Transaction → Bool → TxPool × (TxError ⊎ Bool)
unfolding validate_tx add_valid
add_pooled k p tx local =
    if is_some (lookup_get p.all tx.hash)
    then (p, inl known_transaction)
    else add_valid tx local p (validate_tx k p tx local)
