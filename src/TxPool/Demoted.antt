-- ===== src/TxPool/Demoted.antt =====
-- What `demoteUnexecutables` of core/tx_pool.go does with what an account cannot pay.
use kkchain.Base.{
  ℕ, List, none, some, Bool, true, not, ◌&&◌, leb, Bool-cases, update, update_twice, get_elem?, ◌≡◌,
  ap, sym, subst, ◌∙◌, inl, inr, ltb_ℤ,
}
use kkchain.Pool.SortedMap.{Transaction, TxSortedMap, find_entry, get, filter_map}
use kkchain.Pool.Upkeep.{Inv}
use kkchain.Pool.Operations.{filter_map-Inv, items-filter_map}
use kkchain.Pool.Filter.{drop_above-Inv}
use kkchain.Pool.TxList.{TxList, filter_list, drop_above, is_nonempty, lowest_nonce, is_costly}
use kkchain.TxPool.Defs.{TxPool, enqueue_all}
use kkchain.TxPool.Demote.{forget_all, with_pending, demote_costly}
use kkchain.TxPool.Lookup.{find_entry-select}
use kkchain.TxPool.Moves.{place, OfList, above_goes}
use kkchain.TxPool.Sound.{Agrees, IsSound, pending_same}
use kkchain.TxPool.Enqueue.{enqueue_all-Sound}
use kkchain.TxPool.Shed.{shed, forget_all-fields}
use kkchain.TxPool.Demotion.{left_out, Leaves-of, Holds, update-here}

-- The invalidated transactions of a list that stands pending go to the queue.
pub queued_again :
    (p q : TxPool) (addr : ℕ) (l l' : TxList) (ts : List Transaction)
    → Agrees (update p.pending addr (some l)) p.queue q.all
    → q.queue ≡ p.queue
    → q.pending ≡ update p.pending addr (some l')
    → Inv l'.txs
    → ((n : ℕ) (t : Transaction) → get l'.txs n ≡ some t → get l.txs n ≡ some t)
    → ((i : ℕ) (t : Transaction)
        → get_elem? ts i ≡ some t
        → (get l.txs t.nonce ≡ some t) × (get l'.txs t.nonce ≡ none))
    → Holds addr (enqueue_all q ts, l')
queued_again p q addr l l' ts g y x v sub gone =
    let here = update-here p.pending addr (some l) in
    let shorter =
      pending_same (update p.pending addr (some l)) p.queue q.all addr (some l') g v
        (λ n t e. ap (λ o. place o n) here ∙ sub n t e) in
    let once : Agrees (update p.pending addr (some l')) p.queue q.all =
      subst (λ m. Agrees m p.queue q.all) (update_twice p.pending addr (some l) (some l'))
        shorter in
    let sound : IsSound q = rw (x, y) once in
    let (a, b, c) =
      enqueue_all-Sound ts q q.all sound (λ h u e. e)
        (λ i t e.
          let (was, now) = gone i t e in
          let (known, sender, _) =
            g.sees.known true addr t.nonce t (ap (λ o. place o t.nonce) here ∙ was) in
          (
            known,
            ap (λ m. place (m t.sender) t.nonce) x
                ∙ ap (λ j. place (update p.pending addr (some l') j) t.nonce) sender
                ∙ ap (λ o. place o t.nonce) (update-here p.pending addr (some l'))
                ∙ now,
          )) in
    record {
      sound = a;
      listed = ap (λ m. m addr) c ∙ ap (λ m. m addr) x ∙ update-here p.pending addr (some l');
    }

pub demote_costly-Holds :
    (addr : ℕ) (p : TxPool) (l : TxList)
    → Holds addr (p, l)
    → Holds addr (demote_costly addr (p, l))
unfolding demote_costly filter_list forget_all enqueue_all get
demote_costly-Holds addr p l h =
    let c = p.balance_of addr in
    let g = p.max_gas in
    elim (Bool-cases (not (ltb_ℤ c l.costcap) && leb l.gascap g)) [
      | inl x ↦ rw x (record {
        sound =
            pending_same p.pending p.queue p.all addr (some l) h.sound (valid h)
              (λ n t e. ap (λ o. place o n) h.listed ∙ e);
        listed = update-here p.pending addr (some l);
      })
      | inr x ↦ rw x (filtered h)
    ]
  where
    valid : Holds addr (p, l) → Inv l.txs
    valid h = subst OfList h.listed (h.sound.of_pending addr)

    f : Transaction → Bool
    f = is_costly (p.balance_of addr) p.max_gas

    m : TxSortedMap
    m = (filter_map l.txs f).0

    gone : List Transaction
    gone = (filter_map l.txs f).1

    above : TxList × List Transaction
    above =
        drop_above (record l { costcap = p.balance_of addr; gascap = p.max_gas }) m
          (l.strict && is_nonempty gone) (lowest_nonce gone)

    filtered :
        Holds addr (p, l)
        → Holds addr (enqueue_all (forget_all (with_pending p addr above.0) gone) above.1, above.0)
    filtered h =
        let v = valid h in
        let (items, out) = items-filter_map l.txs f in
        let w = filter_map-Inv l.txs f v in
        let first : TxList = record l { txs = m } in
        let (x, y, z) = forget_all-fields gone (with_pending p addr above.0) in
        let g =
          shed p.pending p.queue p.all addr first gone h.sound w
            (λ n t e.
              ap (λ o. place o n) h.listed
              ∙ (find_entry-select (λ tx. not (f tx)) n l.txs.items t v.ascending
                  (ap (find_entry n) (sym items) ∙ e)).0)
            (Leaves-of (p.pending addr) first gone (λ i t e.
              let (a, b) =
                left_out f l.txs.items i t v.ascending (ap (λ ts. get_elem? ts i) (sym out) ∙ e) in
              (ap (λ o. place o t.nonce) h.listed ∙ a, ap (find_entry t.nonce) items ∙ b))) in
        let (stays, goes) =
          above_goes (record l { costcap = p.balance_of addr; gascap = p.max_gas }) m
            (l.strict && is_nonempty gone) (lowest_nonce gone) w in
        queued_again p (forget_all (with_pending p addr above.0) gone) addr first above.0 above.1
          (subst (Agrees (update p.pending addr (some first)) p.queue) (sym z) g) y x
          (drop_above-Inv (record l { costcap = p.balance_of addr; gascap = p.max_gas }) m
            (l.strict && is_nonempty gone) (lowest_nonce gone) w)
          stays goes
