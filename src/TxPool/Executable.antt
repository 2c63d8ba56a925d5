-- ===== src/TxPool/Executable.antt =====
-- `demoteUnexecutables` of core/tx_pool.go as a whole.
use kkchain.Base.{
  ℕ, ◌+◌, List, [], ◌∷◌, ◌++◌, map, reverse, length, length-append, length-map, length-reverse,
  Option, none, some, true, not, ◌&&◌, ltb, ◌==◌, Bool-cases, ◌≡◌, ◌>>=◌, refl, ap, sym, subst, ◌∙◌,
  inl, inr, arith,
}
use kkchain.Pool.SortedMap.{Transaction, TxSortedMap, find_entry, get, values}
use kkchain.Pool.Entries.{Ascending}
use kkchain.Pool.Upkeep.{Inv}
use kkchain.Pool.Operations.{CappedAt, cap_lem}
use kkchain.Pool.TxList.{TxList, cap_list, length_list, is_empty_list, is_some}
use kkchain.TxPool.Defs.{TxPool, enqueue_tx, enqueue_all}
use kkchain.TxPool.Demote.{
  enqueue_some, with_pending, demote_costly, demote_gap, drop_empty, demote_from,
  demote_unexecutables,
}
use kkchain.TxPool.Lookup.{behind}
use kkchain.TxPool.Moves.{place, OfList}
use kkchain.TxPool.Sound.{IsSound, pending_same}
use kkchain.TxPool.Demotion.{Holds, demote_old-Holds}
use kkchain.TxPool.Complete.{Among, Among-get, Among-reverse}
use kkchain.TxPool.Demoted.{queued_again, demote_costly-Holds}

find_entry-Among :
    (t : Transaction) (es : List (ℕ × Transaction))
    → Ascending es
    → Among t (values es)
    → find_entry t.nonce es ≡ some t
unfolding find_entry
find_entry-Among t [] a h = absurd h
find_entry-Among t (e ∷ es) a (inl h) =
    let nonces : e.1.nonce ≡ t.nonce = ap (λ (r : Transaction). r.nonce) h in
    let x : (e.0 == t.nonce) ≡ true = ground (arith, a.0, nonces) in rw x (ap some h)
find_entry-Among t (e ∷ es) a (inr h) =
    let found = find_entry-Among t es a.2 h in let x = behind e es t.nonce t a.1 found in rw x found

enqueue_some-map :
    (ts : List Transaction) (p : TxPool) → enqueue_some p (map some ts) ≡ some (enqueue_all p ts)
unfolding enqueue_some enqueue_all
enqueue_some-map [] p = refl
enqueue_some-map (t ∷ ts) p = enqueue_some-map ts (enqueue_tx p t).0

-- Cap of 0 leaves nothing.
nothing_left : (m : TxSortedMap) (c : CappedAt m 0) → c.result.items ≡ []
nothing_left m c = go c.result.items counted
  where
    counted : length m.items ≡ length c.result.items + length c.dropped
    counted =
        sym (length-map (λ e. e.1) m.items)
        ∙ ap length c.parts
        ∙ length-append (values c.result.items) (reverse c.dropped)
        ∙ ground (
          arith,
          length-map (λ (e : ℕ × Transaction). e.1) c.result.items,
          length-reverse c.dropped,
        )

    go : (es : List (ℕ × Transaction)) → length m.items ≡ length es + length c.dropped → es ≡ []
    go [] h = refl
    go (e ∷ es) h = absurd (ground (arith, h, c.many))

demote_gap-Holds :
    (addr : ℕ) (p : TxPool) (l : TxList)
    → Holds addr (p, l)
    → (r : TxPool × TxList) × (demote_gap addr (p, l) ≡ some r) × Holds addr r
unfolding demote_gap cap_list get find_entry
demote_gap-Holds addr p l h =
    elim (Bool-cases
      (ltb 0 (length_list l) && not (is_some (find_entry (p.nonce_of addr) l.txs.items)))) [
        | inr x ↦ ((p, l), rw x refl, h)
        | inl x ↦
            let v : Inv l.txs = subst OfList h.listed (h.sound.of_pending addr) in
            let c = cap_lem l.txs 0 v in
            let l' = record l { txs = c.result } in
            let q = with_pending p addr l' in
            let empty = nothing_left l.txs c in
            (
              (enqueue_all q c.dropped, l'),
              rw x (
                  rw c.returned (ap (λ o. o >>= λ r. some (r, l')) (enqueue_some-map c.dropped q))),
              queued_again p q addr l l' c.dropped
                  (pending_same p.pending p.queue p.all addr (some l) h.sound v
                    (λ n t e. ap (λ o. place o n) h.listed ∙ e))
                  refl refl c.inv
                  (λ n t e.
                    let z : find_entry n [] ≡ some t = ap (find_entry n) (sym empty) ∙ e in cc)
                  (λ i t e. (
                    find_entry-Among t l.txs.items v.ascending (
                        subst (Among t)
                          (sym (c.parts ∙ ap (λ es. values es ++ reverse c.dropped) empty))
                          (Among-reverse t c.dropped (Among-get c.dropped i t e))),
                    ap (find_entry t.nonce) empty,
                  )),
            )
      ]

drop_empty-IsSound : (addr : ℕ) (r : TxPool × TxList) → Holds addr r → IsSound (drop_empty addr r)
unfolding drop_empty
drop_empty-IsSound addr (p, l) h = elim (Bool-cases (is_empty_list l)) [
  | inl x ↦ rw x (pending_same p.pending p.queue p.all addr none h.sound tt (λ n t e. cc))
  | inr x ↦ rw x h.sound
]

demote_from-IsSound :
    (p : TxPool) (addr : ℕ) (o : Option TxList)
    → IsSound p
    → p.pending addr ≡ o
    → (q : TxPool) × (demote_from p addr o ≡ some q) × IsSound q
unfolding demote_from
demote_from-IsSound p addr none s e = (p, refl, s)
demote_from-IsSound p addr (some l) s e =
    let ((p1, l1), x, h) = demote_old-Holds p addr l (record { sound = s; listed = e }) in
    let h' = demote_costly-Holds addr p1 l1 h in
    let r = demote_costly addr (p1, l1) in
    let (r', y, k) = demote_gap-Holds addr r.0 r.1 h' in
    (drop_empty addr r', rw x (rw y refl), drop_empty-IsSound addr r' k)

-- From a pool whose lists and lookup agree, demoteUnexecutables does not panic, and they still agree,
-- in whatever order it visits the accounts.
pub demote_unexecutables-IsSound :
    (p : TxPool) (addrs : List ℕ)
    → IsSound p
    → (q : TxPool) × (demote_unexecutables p addrs ≡ some q) × IsSound q
unfolding demote_unexecutables
demote_unexecutables-IsSound p [] s = (p, refl, s)
demote_unexecutables-IsSound p (addr ∷ addrs) s =
    let (q, x, t) = demote_from-IsSound p addr (p.pending addr) s refl in
    let (r, y, u) = demote_unexecutables-IsSound q addrs t in
    (r, ap (λ o. o >>= λ m. demote_unexecutables m addrs) x ∙ y, u)
