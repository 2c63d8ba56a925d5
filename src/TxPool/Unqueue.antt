-- ===== src/TxPool/Unqueue.antt =====
-- A queued transaction of core/tx_pool.go that `removeTx` takes out of its queue.
use kkchain.Base.{
  [], ◌∷◌, ◌⊎◌, ℕ, Option, none, some, false, Bool-cases, update, ◌≡◌, refl, ap, sym, subst, ◌∙◌,
  inl, inr, some_inj,
}
use kkchain.Pool.SortedMap.{Transaction}
use kkchain.Pool.TxList.{TxList, remove_tx, is_empty_list}
use kkchain.TxPool.Priced.{TxLookup}
use kkchain.TxPool.Defs.{TxPool, drop_queued}
use kkchain.TxPool.Moves.{place, OfList, Dropped, remove_tx-Dropped, strict-remove_tx}
use kkchain.TxPool.Sound.{places, Loose, Loose-update}
use kkchain.TxPool.Complete.{Among, Complete, Complete-move}
use kkchain.TxPool.Remain.{unless_empty, kept-place, queue_loses}

Loose-unless_empty : (l : TxList) → l.strict ≡ false → Loose (unless_empty l)
Loose-unless_empty l h = elim (Bool-cases (is_empty_list l)) [ inl x ↦ rw x tt | inr x ↦ rw x h ]

pub drop_queued-Complete :
    (p : TxPool) (tx : Transaction) (all : TxLookup)
    → Complete (places p.pending p.queue) all []
    → ((a : ℕ) → Loose (p.queue a))
    → ((a : ℕ) → OfList (p.queue a))
    → place (p.queue tx.sender) tx.nonce ≡ some tx
    → let q = drop_queued tx (p.queue tx.sender) p in
      Complete (places q.pending q.queue) all (tx ∷ []) × ((a : ℕ) → Loose (q.queue a))
unfolding drop_queued
drop_queued-Complete p tx all c k v there = go (p.queue tx.sender) refl
  where
    go :
        (o : Option TxList)
        → p.queue tx.sender ≡ o
        → let q = drop_queued tx o p in
          Complete (places q.pending q.queue) all (tx ∷ []) × ((a : ℕ) → Loose (q.queue a))
    go none e =
        let x : place none tx.nonce ≡ some tx = ap (λ o. place o tx.nonce) (sym e) ∙ there in cc
    go (some l) e =
        let d = remove_tx-Dropped l tx (subst OfList e (v tx.sender)) in
        let (loose, none_lost) = strict-remove_tx l tx (subst Loose e (k tx.sender)) in
        let o = unless_empty (remove_tx l tx).0 in
        (
          Complete-move (places p.pending p.queue) (places p.pending (update p.queue tx.sender o))
              all (tx ∷ []) c
              (queue_loses p.pending p.queue tx.sender o (tx ∷ [])
                (λ n t w. loses d none_lost n t w)),
          Loose-update p.queue tx.sender o k (Loose-unless_empty (remove_tx l tx).0 loose),
        )
      where
        loses :
            Dropped l tx (remove_tx l tx)
            → (remove_tx l tx).2 ≡ []
            → (n : ℕ) (t : Transaction) → place (p.queue tx.sender) n ≡ some t
            → (place (unless_empty (remove_tx l tx).0) n ≡ some t) ⊎ Among t (tx ∷ [])
        loses d z n t w = elim (d.loses n t (ap (λ m. place m n) (sym e) ∙ w)) [
          | inr u ↦ absurd (subst (Among t) z u)
          | inl (inr u) ↦ inl (kept-place (remove_tx l tx).0 n t u)
          | inl (inl u) ↦
              inr (inl (some_inj (sym there ∙ ap (place (p.queue tx.sender)) (sym u) ∙ w)))
        ]
