-- ===== src/TxPool/Stores.antt =====
-- What `add` of core/tx_pool.go leaves where it queues a transaction or replaces a pending one.
use kkchain.Base.{
  [], ℕ, Option, none, some, Bool, true, false, ◌==◌, if◌then◌else◌, Bool-cases, Option-cases,
  update, ◌≡◌, ◌⊎◌, refl, ap, sym, subst, ◌∙◌, inl, inr, arith,
}
use kkchain.Pool.SortedMap.{Transaction, get}
use kkchain.Pool.TxList.{TxList, overlaps, is_some}
use kkchain.TxPool.Priced.{lookup_get}
use kkchain.TxPool.Defs.{
  TxPool, TxError, replace_underpriced, discard_old, know_from, journal_tx, add_queued,
}
use kkchain.TxPool.Places.{Fresh, lookup_with, lookup_without}
use kkchain.TxPool.Moves.{place, Added}
use kkchain.TxPool.Sound.{places, Loose, place-here, place-other, Agrees, IsSound, pending_put}
use kkchain.TxPool.Complete.{Complete, Complete-more, Complete-put}
use kkchain.TxPool.Enqueue.{Within, Enqueued, without-get, looked}

-- What add leaves: lists and lookup that agree; on an error nothing known that was not; without one,
-- the transaction under its hash, and in the pending list or in the queue of its account.
pub record Stores (p : TxPool) (tx : Transaction) (r : TxPool × (TxError ⊎ Bool)) : Type 0 where
  pub sound : IsSound r.0
  pub refused : (x : TxError) → r.1 ≡ inl x → Within r.0.all p.all
  pub stored :
      (b : Bool)
      → r.1 ≡ inr b
      → (lookup_get r.0.all tx.hash ≡ some tx)
        × ((place (r.0.pending tx.sender) tx.nonce ≡ some tx)
            ⊎ (place (r.0.queue tx.sender) tx.nonce ≡ some tx))
  pub keeps :
      Complete (places p.pending p.queue) p.all []
      → ((a : ℕ) → Loose (p.queue a))
      → Complete (places r.0.pending r.0.queue) r.0.all [] × ((a : ℕ) → Loose (r.0.queue a))

-- The lists and the lookup are as they were.
abbrev pub Same : TxPool → TxPool → Type 0
Same p q = (q.pending ≡ p.pending) × (q.queue ≡ p.queue) × (q.all ≡ p.all)

pub journal_tx-Same : (p : TxPool) (a : ℕ) (tx : Transaction) → Same p (journal_tx p a tx)
unfolding journal_tx
journal_tx-Same p a tx = elim (Bool-cases (p.locals a)) [
  | inl x ↦ rw x (refl, refl, refl)
  | inr x ↦ rw x (refl, refl, refl)
]

pub Stores-Same :
    (p q q' : TxPool) (tx : Transaction) (x : TxError ⊎ Bool)
    → Same q q'
    → Stores p tx (q, x)
    → Stores p tx (q', x)
Stores-Same p q q' tx x (a, b, c) s = record {
  sound = rw (a, b, c) s.sound;
  refused = rw c s.refused;
  stored = rw (a, b, c) s.stored;
  keeps = λ m l. rw (a, b, c) (s.keeps m l);
}

-- A refused transaction changes no place.
unmoved-Complete :
    (p : TxPool) (tx : Transaction) (q : TxPool) (x : TxError)
    → Enqueued p tx (q, inl x)
    → Complete (places p.pending p.queue) p.all []
    → Complete (places q.pending q.queue) q.all []
unmoved-Complete p tx q x e c h t k =
    elim (c h t (ap (λ m. lookup_get m h) (sym (e.refused x refl)) ∙ k)) [
      | inl (b, l) ↦ inl (b, kept b t.sender t.nonce ∙ l)
      | inr y ↦ absurd y
    ]
  where
    kept : (b : Bool) (a n : ℕ) → places q.pending q.queue b a n ≡ places p.pending p.queue b a n
    kept true a n = ap (λ m. place (m a) n) e.pending
    kept false a n = e.unmoved x refl a n

pub add_queued-Stores :
    (p : TxPool) (tx : Transaction) (local : Bool) (r : TxPool × (TxError ⊎ Bool))
    → Enqueued p tx r
    → Stores p tx (add_queued tx local r)
unfolding add_queued
add_queued-Stores p tx local (q, inl x) e = record {
  sound = e.sound;
  refused = λ y z. subst (λ m. Within m p.all) (sym (e.refused x refl)) (λ h u k. k);
  stored = λ b z. cc;
  keeps = λ c l. (unmoved-Complete p tx q x e c, e.loose l);
}
add_queued-Stores p tx true (q, inr b) e =
    Stores-Same p (record q { locals = update q.locals tx.sender true })
      (journal_tx (record q { locals = update q.locals tx.sender true }) tx.sender tx) tx (inr b)
      (journal_tx-Same (record q { locals = update q.locals tx.sender true }) tx.sender tx)
      (record {
        sound = e.sound;
        refused = λ y z. cc;
        stored = λ y z. let (u, v) = e.accepted b refl in (u, inr v);
        keeps = λ c l. (
          e.complete b [] refl (Complete-more (places p.pending p.queue) p.all tx [] c),
          e.loose l,
        );
      })
add_queued-Stores p tx false (q, inr b) e =
    Stores-Same p q (journal_tx q tx.sender tx) tx (inr b) (journal_tx-Same q tx.sender tx)
      (record {
        sound = e.sound;
        refused = λ y z. cc;
        stored = λ y z. let (u, v) = e.accepted b refl in (u, inr v);
        keeps = λ c l. (
          e.complete b [] refl (Complete-more (places p.pending p.queue) p.all tx [] c),
          e.loose l,
        );
      })

pub discard_old-fields :
    (old : Option Transaction) (p : TxPool)
    → ((discard_old old p).pending ≡ p.pending)
      × ((discard_old old p).queue ≡ p.queue)
      × ((discard_old old p).all ≡ lookup_without old p.all)
unfolding discard_old
discard_old-fields none p = (refl, refl, refl)
discard_old-fields (some old) p = (refl, refl, refl)

-- A transaction that is new replaces a pending one.
pub replace-Stores :
    (p : TxPool) (tx : Transaction) (pending : TxList) (r : TxList × Bool × Option Transaction)
    → IsSound p
    → lookup_get p.all tx.hash ≡ none
    → p.pending tx.sender ≡ some pending
    → overlaps pending tx ≡ true
    → Added (some pending) tx r
    → Stores p tx (
        if r.1
        then (
          journal_tx
              (know_from none tx
                (discard_old r.2 (record p { pending = update p.pending tx.sender (some r.0) })))
              tx.sender
              tx,
          inr (is_some r.2),
        )
        else (p, inl replace_underpriced))
unfolding overlaps know_from
replace-Stores p tx pending (l, false, old) s new e o a = record {
  sound = s;
  refused = λ x y h u k. k;
  stored = λ b y. cc;
  keeps = λ c k. (c, k);
}
replace-Stores p tx pending (l, true, old) s new e o a =
    Stores-Same p known (journal_tx known tx.sender tx) tx (inr (is_some old))
      (journal_tx-Same known tx.sender tx)
      (record {
        sound = rw (f.0, f.1, whole) g';
        refused = λ x y. cc;
        stored = λ b y. (
          ap (λ m. lookup_get m tx.hash) whole ∙ (looked tx old p s fresh).0,
          inl (ap (λ m. place (m tx.sender) tx.nonce) f.0 ∙ in_list),
        );
        keeps = λ c k. (
          rw (f.0, f.1, whole)
              (Complete-put (places p.pending p.queue) (places q.pending p.queue) p.all true tx old
                [] s.sees fresh (place-here p.pending tx.sender l tx content) others same
                (Complete-more (places p.pending p.queue) p.all tx [] c)),
          rw f.1 k,
        );
      })
  where
    q : TxPool
    q = record p { pending = update p.pending tx.sender (some l) }

    known : TxPool
    known = know_from none tx (discard_old old q)

    f :
        ((discard_old old q).pending ≡ q.pending)
        × ((discard_old old q).queue ≡ q.queue)
        × ((discard_old old q).all ≡ lookup_without old q.all)
    f = discard_old-fields old q

    fresh : Fresh tx p.all
    fresh u x = cc

    absent : lookup_get (lookup_without old p.all) tx.hash ≡ none
    absent = elim (Option-cases (lookup_get (lookup_without old p.all) tx.hash)) [
      | inl x ↦ x
      | inr (u, x) ↦ let y = without-get old p tx.hash u s x in cc
    ]

    whole : known.all ≡ lookup_with tx (lookup_without old p.all)
    whole = rw (f.2, absent) refl

    content :
        (n : ℕ) → get l.txs n ≡ (if tx.nonce == n then some tx else place (p.pending tx.sender) n)
    content n = rw e ((a.accepted refl).1 n)

    in_list : place (update p.pending tx.sender (some l) tx.sender) tx.nonce ≡ some tx
    in_list =
        let x : (tx.sender == tx.sender) ≡ true = ground arith in
        let y : (tx.nonce == tx.nonce) ≡ true = ground arith in rw x (content tx.nonce ∙ rw y refl)

    free : place (p.queue tx.sender) tx.nonce ≡ none
    free = elim (Option-cases (get pending.txs tx.nonce)) [
      | inl x ↦ let y : false ≡ true = simp x at o in cc
      | inr (t, x) ↦ elim (Option-cases (place (p.queue tx.sender) tx.nonce)) [
        | inl y ↦ y
        | inr (u, y) ↦
            absurd (s.sees.apart tx.sender tx.nonce t u (ap (λ m. place m tx.nonce) e ∙ x) y)
      ]
    ]

    g :
        Agrees
          (update p.pending tx.sender (some l))
          p.queue
          (lookup_with tx (lookup_without (place (p.pending tx.sender) tx.nonce) p.all))
    g = pending_put p.pending p.queue p.all tx l s fresh free a.inv content

    same : old ≡ place (p.pending tx.sender) tx.nonce
    same = (a.accepted refl).0 ∙ ap (λ m. place m tx.nonce) (sym e)

    g' : Agrees q.pending q.queue (lookup_with tx (lookup_without old p.all))
    g' =
        subst (λ m. Agrees q.pending q.queue (lookup_with tx (lookup_without m p.all))) (sym same) g

    others :
        (b : Bool) (c n : ℕ)
        → (b ≡ true → c ≡ tx.sender → n ≡ tx.nonce → ⊥)
        → places q.pending p.queue b c n ≡ places p.pending p.queue b c n
    others false c n d = refl
    others true c n d = place-other p.pending tx.sender l tx content c n (d refl)
