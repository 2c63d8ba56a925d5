-- ===== src/TxPool/Remove.antt =====
-- `removeTx` of core/tx_pool.go.
use kkchain.Base.{
  [], ◌∷◌, ◌⊎◌, ℕ, Option, none, some, Bool, true, false, ◌==◌, if◌then◌else◌, Bool-cases,
  Option-cases, update, get_elem?, ◌≡◌, ◌≢◌, refl, ap, sym, subst, ◌∙◌, inl, inr, arith, some_inj,
}
use kkchain.Pool.SortedMap.{Transaction, get}
use kkchain.Pool.TxList.{TxList, remove_tx, is_empty_list}
use kkchain.TxPool.Priced.{lookup_get, lookup_remove, removed}
use kkchain.TxPool.Defs.{
  TxPool, enqueue_all, drop_queued, drop_pending, remove_known, remove_pooled,
}
use kkchain.TxPool.Places.{get-remove, remove-get}
use kkchain.TxPool.Moves.{place, OfList, Dropped, remove_tx-Dropped}
use kkchain.TxPool.Sound.{places, Agrees, IsSound, Whole, Loose, pending_same}
use kkchain.TxPool.Enqueue.{Within, Moving, enqueue_all-Sound, enqueue_all-Complete}
use kkchain.TxPool.Complete.{Among, Among-index, Complete, Complete-forget, Complete-move}
use kkchain.TxPool.Remain.{
  unless_empty, kept-place, pending_loses, not_queued, queued_there, pending_there,
}
use kkchain.TxPool.Unqueue.{drop_queued-Complete}
use kkchain.TxPool.Vacate.{
  place-kept, of_kept, Vacant, vacate, drop_queued-Agrees, forget, get-removed,
}

-- What a removal leaves of a pool in which every known transaction is listed: it is so again, and no
-- other is forgotten.
pub record Keeps (p q : TxPool) (hash : ℕ) : Type 0 where
  pub complete : Complete (places q.pending q.queue) q.all []
  pub loose : (a : ℕ) → Loose (q.queue a)
  pub others :
      (h : ℕ) (u : Transaction)
      → h ≢ hash
      → lookup_get p.all h ≡ some u
      → lookup_get q.all h ≡ some u

-- What a removal leaves: lists and lookup that agree, nothing known that was not, and nothing under
-- the hash.
pub record Removes (p q : TxPool) (hash : ℕ) : Type 0 where
  pub sound : IsSound q
  pub within : Within q.all p.all
  pub forgotten : lookup_get q.all hash ≡ none
  pub unlisted :
      (b : Bool) (a n : ℕ) (t : Transaction)
      → places q.pending q.queue b a n ≡ some t
      → t.hash ≢ hash
  pub keeps :
      Complete (places p.pending p.queue) p.all [] → ((a : ℕ) → Loose (p.queue a)) → Keeps p q hash

-- From a lookup without the hash follows the rest.
Removes-of :
    (p q : TxPool) (hash : ℕ)
    → IsSound p
    → IsSound q
    → Within q.all (lookup_remove p.all hash)
    → (Complete (places p.pending p.queue) p.all []
        → ((a : ℕ) → Loose (p.queue a))
        → Keeps p q hash)
    → Removes p q hash
Removes-of p q hash s g w keeps = record {
  keeps = keeps;
  sound = g;
  within = λ h u e. get-remove p.all hash h u s.sees.sorted (w h u e);
  forgotten = forgotten;
  unlisted = λ b a n t x y.
      let k = (g.sees.known b a n t x).0 in
      let z : lookup_get q.all hash ≡ some t = ap (lookup_get q.all) (sym y) ∙ k in
      let f = forgotten in cc;
}
  where
    forgotten : lookup_get q.all hash ≡ none
    forgotten = elim (Option-cases (lookup_get q.all hash)) [
      | inl e ↦ e
      | inr (u, e) ↦ let x = w hash u e in let y = get-removed p.all p.pending p.queue hash s in cc
    ]

-- The pool in which only the lookup lost the transaction.
drop_pending-Removes :
    (p p1 : TxPool) (tx : Transaction) (hash : ℕ)
    → IsSound p
    → lookup_get p.all hash ≡ some tx
    → p1.pending ≡ p.pending
    → p1.queue ≡ p.queue
    → p1.all ≡ lookup_remove p.all hash
    → Removes p (drop_pending tx (p1.pending tx.sender) p1) hash
unfolding drop_pending
drop_pending-Removes p p1 tx hash s e x y z = go (p1.pending tx.sender) refl
  where
    start : Agrees p1.pending p1.queue p.all
    start = rw (x, y) s

    queued :
        Vacant (places p1.pending p1.queue) true tx
        → Removes p (drop_queued tx (p1.queue tx.sender) p1) hash
    queued v =
        let (a, b, c) = drop_queued-Agrees p1 tx p.all start v in
        let q = drop_queued tx (p1.queue tx.sender) p1 in
        let whole : q.all ≡ lookup_remove p.all hash = b ∙ z in
        Removes-of p q hash s
          (subst (Agrees q.pending q.queue) (sym whole)
            (forget q.pending q.queue p.all tx hash a e c))
          (subst (λ m. Within m (lookup_remove p.all hash)) (sym whole) (λ h u f. f))
          (λ c l.
            let loose : (a : ℕ) → Loose (p1.queue a) = rw y l in
            let first : Complete (places p1.pending p1.queue) p.all [] = rw (x, y) c in
            let there = queued_there p1.pending p1.queue p.all hash tx first e v in
            let (m, n) = drop_queued-Complete p1 tx p.all first loose start.of_queue there in
            record {
              complete =
                  subst (λ all. Complete (places q.pending q.queue) all []) (sym whole)
                    (Complete-forget (places q.pending q.queue) (places p.pending p.queue) p.all
                      hash tx [] s.sees (s.sees.keyed hash tx e) m);
              loose = n;
              others = λ h u d k.
                  ap (λ all. lookup_get all h) whole ∙ remove-get p.all hash h u s.sees.sorted d k;
            })

    shorter : TxList → TxPool
    shorter l =
        let empty = is_empty_list (remove_tx l tx).0 in
        record p1 {
          pending = update p1.pending tx.sender (if empty then none else some (remove_tx l tx).0);
          beats = if empty then update p1.beats tx.sender none else p1.beats;
        }

    kept :
        (l : TxList)
        → p1.pending tx.sender ≡ some l
        → Dropped l tx (remove_tx l tx)
        → (n : ℕ) (t : Transaction) → get (remove_tx l tx).0.txs n ≡ some t
        → (place (p1.pending tx.sender) n ≡ some t) × (n ≢ tx.nonce)
    kept l o d n t x = let (u, v) = d.kept n t x in (ap (λ m. place m n) o ∙ u, v)

    shortened :
        (l : TxList)
        → p1.pending tx.sender ≡ some l
        → Dropped l tx (remove_tx l tx)
        → (remove_tx l tx).1 ≡ true
        → Agrees (shorter l).pending (shorter l).queue p.all
          × ((b : Bool) → Vacant (places (shorter l).pending (shorter l).queue) b tx)
    shortened l o d f =
        let k = kept l o d in
        (
          pending_same p1.pending p1.queue p.all tx.sender
              (if is_empty_list (remove_tx l tx).0 then none else some (remove_tx l tx).0) start
              (of_kept (remove_tx l tx).0 d.inv)
              (λ n t x. (k n t (place-kept (remove_tx l tx).0 n t x)).0),
          vacant,
        )
      where
        vacant : (b : Bool) → Vacant (places (shorter l).pending (shorter l).queue) b tx
        vacant true t x = vacate p1.pending tx.sender tx.nonce (remove_tx l tx).0 (kept l o d) t x
        vacant false t x =
            let (u, g) = d.present f in
            start.sees.apart tx.sender tx.nonce u t (ap (λ m. place m tx.nonce) o ∙ g) x

    postponed :
        (l : TxList)
        → p1.pending tx.sender ≡ some l
        → Dropped l tx (remove_tx l tx)
        → (i : ℕ) (t : Transaction) → get_elem? (remove_tx l tx).2 i ≡ some t
        → (lookup_get p1.all t.hash ≡ some t)
          × (place ((shorter l).pending t.sender) t.nonce ≡ none)
    postponed l o d i t x =
        let (was, gone, other) = d.invalids i t x in
        let (known, sender, nonce) =
          start.sees.known true tx.sender t.nonce t (ap (λ m. place m t.nonce) o ∙ was) in
        let kept_hash : t.hash ≢ hash = λ h. other (
          ap (λ (r : Transaction). r.nonce) (some_inj (sym known ∙ ap (lookup_get p.all) h ∙ e))) in
        (
          ap (λ m. lookup_get m t.hash) z
              ∙ remove-get p.all hash t.hash t s.sees.sorted kept_hash known,
          ap (λ a. place ((shorter l).pending a) t.nonce) sender ∙ vacated gone,
        )
      where
        vacated :
            get (remove_tx l tx).0.txs t.nonce ≡ none
            → place ((shorter l).pending tx.sender) t.nonce ≡ none
        vacated gone =
            let a : (tx.sender == tx.sender) ≡ true = ground arith in
            elim (Bool-cases (is_empty_list (remove_tx l tx).0)) [
              | inl m ↦ rw (a, m) refl
              | inr m ↦ rw (a, m) gone
            ]

    dropped : (l : TxList) → p1.pending tx.sender ≡ some l → Dropped l tx (remove_tx l tx)
    dropped l o = remove_tx-Dropped l tx (subst OfList o (start.of_pending tx.sender))

    on_the_way :
        (l : TxList)
        → p1.pending tx.sender ≡ some l
        → Dropped l tx (remove_tx l tx)
        → (remove_tx l tx).1 ≡ true
        → Complete (places p1.pending p1.queue) p.all []
        → Complete (places (shorter l).pending (shorter l).queue) p.all (tx ∷ (remove_tx l tx).2)
    on_the_way l o d f c =
        Complete-move (places p1.pending p1.queue) (places (shorter l).pending (shorter l).queue)
          p.all (tx ∷ (remove_tx l tx).2) c
          (pending_loses p1.pending p1.queue tx.sender (unless_empty (remove_tx l tx).0)
            (tx ∷ (remove_tx l tx).2) loses)
      where
        loses :
            (n : ℕ) (t : Transaction)
            → place (p1.pending tx.sender) n ≡ some t
            → (place (unless_empty (remove_tx l tx).0) n ≡ some t)
              ⊎ Among t (tx ∷ (remove_tx l tx).2)
        loses n t k = elim (d.loses n t (ap (λ m. place m n) (sym o) ∙ k)) [
          | inr w ↦ inr (inr w)
          | inl (inr w) ↦ inl (kept-place (remove_tx l tx).0 n t w)
          | inl (inl w) ↦ inr (
              inl (
                sym (
                  pending_there p1.pending p1.queue p.all hash tx t start c e
                    (ap (place (p1.pending tx.sender)) (sym w) ∙ k))))
        ]

    from_pending :
        (l : TxList)
        → p1.pending tx.sender ≡ some l
        → Dropped l tx (remove_tx l tx)
        → Moving (shorter l) (λ a. place (p1.pending a)) (remove_tx l tx).2
    from_pending l o d t k =
        let (i, w) = Among-index t (remove_tx l tx).2 k in
        let was = ap (λ m. place m t.nonce) o ∙ (d.invalids i t w).0 in
        let (_, sender, _) = start.sees.known true tx.sender t.nonce t was in
        let here : place (p1.pending t.sender) t.nonce ≡ some t =
          ap (λ a. place (p1.pending a) t.nonce) sender ∙ was in
        (here, inl (not_queued p1.pending p1.queue p.all t.sender t.nonce t start here))

    go : (o : Option TxList) → p1.pending tx.sender ≡ o → Removes p (drop_pending tx o p1) hash
    go none o =
        queued (λ t f.
          let g : place none tx.nonce ≡ some t = ap (λ m. place m tx.nonce) (sym o) ∙ f in cc)
    go (some l) o = elim (Bool-cases (remove_tx l tx).1) [
      | inr f ↦ rw f (
          queued (λ t g.
            let n = (dropped l o).absent f in
            let h : place (some l) tx.nonce ≡ some t = ap (λ m. place m tx.nonce) (sym o) ∙ g in
            cc))
      | inl f ↦
          let q = shorter l in
          let g = shortened l o (dropped l o) f in
          let (a, b, c) =
            enqueue_all-Sound (remove_tx l tx).2 q p1.all
              (subst (Agrees q.pending q.queue) (sym z)
                (forget q.pending q.queue p.all tx hash g.0 e g.1))
              (λ h u k. k) (λ i t k. postponed l o (dropped l o) i t k) in
          rw f (
            Removes-of p _ hash s a (subst (Within (enqueue_all q (remove_tx l tx).2).all) z b)
              (λ c k.
                let loose : (a : ℕ) → Loose (p1.queue a) = rw y k in
                let first : Complete (places p1.pending p1.queue) p.all [] = rw (x, y) c in
                let moved = on_the_way l o (dropped l o) f first in
                let (m, n, r) =
                  enqueue_all-Complete (remove_tx l tx).2 q p1.all (λ a. place (p1.pending a))
                    (subst (Agrees q.pending q.queue) (sym z)
                      (forget q.pending q.queue p.all tx hash g.0 e g.1))
                    (λ h u w. w) (λ i t w. postponed l o (dropped l o) i t w)
                    (from_pending l o (dropped l o)) loose
                    (subst (λ all. Complete (places q.pending q.queue) all (remove_tx l tx).2)
                      (sym z)
                      (Complete-forget (places q.pending q.queue) (places p.pending p.queue) p.all
                        hash tx (remove_tx l tx).2 s.sees (s.sees.keyed hash tx e) moved)) in
                record {
                  complete = m;
                  loose = n;
                  others = λ h u d w. r h u (
                      ap (λ all. lookup_get all h) z ∙ remove-get p.all hash h u s.sees.sorted d w);
                }))
    ]

-- A pool whose lists and lookup agree still does after removeTx; nothing becomes known, and nothing is
-- known or listed under the hash any more.
pub remove_pooled-Removes :
    (p : TxPool) (hash : ℕ) (outofbound : Bool)
    → IsSound p
    → Removes p (remove_pooled p hash outofbound) hash
unfolding remove_pooled remove_known
remove_pooled-Removes p hash outofbound s = go (lookup_get p.all hash) refl
  where
    without : Transaction → TxPool
    without tx =
        let all = lookup_remove p.all hash in
        record p { all = all; priced = if outofbound then removed all p.priced else p.priced }

    go :
        (o : Option Transaction)
        → lookup_get p.all hash ≡ o
        → Removes p (remove_known p hash outofbound o) hash
    go none e = record {
      sound = s;
      within = λ h u x. x;
      forgotten = e;
      unlisted = λ b a n t x y.
          let k = (s.sees.known b a n t x).0 in
          let z : lookup_get p.all hash ≡ some t = ap (lookup_get p.all) (sym y) ∙ k in cc;
      keeps = λ c l. record { complete = c; loose = l; others = λ h u d k. k };
    }
    go (some tx) e = drop_pending-Removes p (without tx) tx hash s e refl refl refl

-- A pool whose lists and lookup agree both ways still is one after removeTx; nothing becomes known,
-- nothing is known or listed under the hash any more, and everything else that was known still is.
pub record Removal (p q : TxPool) (hash : ℕ) : Type 0 where
  pub whole : Whole q
  pub within : Within q.all p.all
  pub forgotten : lookup_get q.all hash ≡ none
  pub unlisted :
      (b : Bool) (a n : ℕ) (t : Transaction)
      → places q.pending q.queue b a n ≡ some t
      → t.hash ≢ hash
  pub others :
      (h : ℕ) (u : Transaction)
      → h ≢ hash
      → lookup_get p.all h ≡ some u
      → lookup_get q.all h ≡ some u

-- A pool whose lists and lookup agree both ways, every known transaction being listed, still is one
-- after removeTx. Nothing becomes known, nothing is known or listed under the hash any more, and every
-- other known transaction is still known.
pub remove_pooled-Removal :
    (p : TxPool) (hash : ℕ) (outofbound : Bool)
    → Whole p
    → Removal p (remove_pooled p hash outofbound) hash
remove_pooled-Removal p hash outofbound w =
    let r = remove_pooled-Removes p hash outofbound w.agrees in
    let k = r.keeps w.complete w.loose in
    record {
      whole = record { agrees = r.sound; complete = k.complete; loose = k.loose };
      within = r.within;
      forgotten = r.forgotten;
      unlisted = r.unlisted;
      others = k.others;
    }
