-- ===== src/TxPool/Enqueue.antt =====
-- `enqueueTx` of core/tx_pool.go, once and for the transactions that a removal invalidates.
use kkchain.Base.{
  ◌≢◌, ℕ, zero, suc, List, [], ◌∷◌, Option, none, some, Bool, true, false, ◌==◌, if◌then◌else◌,
  Bool-cases, update, get_elem?, ◌≡◌, ◌⊎◌, refl, ap, sym, subst, ◌∙◌, inl, inr, arith, some_inj,
}
use kkchain.Pool.SortedMap.{Transaction, get}
use kkchain.Pool.TxList.{TxList, add, is_some}
use kkchain.TxPool.Priced.{TxLookup, lookup_get}
use kkchain.TxPool.Defs.{
  TxPool, TxError, replace_underpriced, list_of, discard_old, know, enqueue_tx, enqueue_all,
}
use kkchain.TxPool.Places.{Fresh, lookup_with, lookup_without, get-with, get-remove, remove-get}
use kkchain.TxPool.Moves.{place, Added, add-Added}
use kkchain.TxPool.Sound.{
  Agrees, IsSound, lookup-know, queue_put, queue_same, places, Loose, Loose-update, add-Loose,
  place-other, place-here, place-same,
}
use kkchain.TxPool.Complete.{Among, Complete, Complete-put, Listed, same_number}

-- Nothing new is known.
abbrev pub Within : TxLookup → TxLookup → Type 0
Within all before =
    (h : ℕ) (u : Transaction) → lookup_get all h ≡ some u → lookup_get before h ≡ some u

-- What enqueueTx leaves: an accepted transaction stands in the queue and is known; a refused one
-- changes no lookup.
pub record Enqueued (p : TxPool) (tx : Transaction) (r : TxPool × (TxError ⊎ Bool)) : Type 0 where
  pub sound : IsSound r.0
  pub pending : r.0.pending ≡ p.pending
  pub lookup :
      (h : ℕ) (u : Transaction)
      → lookup_get r.0.all h ≡ some u
      → (lookup_get p.all h ≡ some u) ⊎ ((u ≡ tx) × (h ≡ tx.hash))
  pub refused : (x : TxError) → r.1 ≡ inl x → r.0.all ≡ p.all
  pub accepted :
      (b : Bool)
      → r.1 ≡ inr b
      → (lookup_get r.0.all tx.hash ≡ some tx) × (place (r.0.queue tx.sender) tx.nonce ≡ some tx)
  pub taken : (x : TxError) → r.1 ≡ inl x → place (p.queue tx.sender) tx.nonce ≢ none
  pub unmoved :
      (x : TxError) → r.1 ≡ inl x → (a n : ℕ) → place (r.0.queue a) n ≡ place (p.queue a) n
  pub queued :
      (a n : ℕ)
      → (place (r.0.queue a) n ≡ place (p.queue a) n)
        ⊎ ((place (r.0.queue a) n ≡ some tx) × (a ≡ tx.sender) × (n ≡ tx.nonce))
  pub loose : ((a : ℕ) → Loose (p.queue a)) → (a : ℕ) → Loose (r.0.queue a)
  pub keeps :
      (place (p.queue tx.sender) tx.nonce ≡ none) ⊎ (place (p.queue tx.sender) tx.nonce ≡ some tx)
      → (h : ℕ) (u : Transaction) → lookup_get p.all h ≡ some u
      → lookup_get r.0.all h ≡ some u
  pub complete :
      (b : Bool) (moving : List Transaction)
      → r.1 ≡ inr b
      → Complete (places p.pending p.queue) p.all (tx ∷ moving)
      → Complete (places r.0.pending r.0.queue) r.0.all moving

pub without-get :
    (old : Option Transaction) (p : TxPool) (h : ℕ) (u : Transaction)
    → IsSound p
    → lookup_get (lookup_without old p.all) h ≡ some u
    → lookup_get p.all h ≡ some u
without-get none p h u s e = e
without-get (some old) p h u s e = get-remove p.all old.hash h u s.sees.sorted e

-- The lookup after `know` and `discard_old`.
pub looked :
    (tx : Transaction) (old : Option Transaction) (p : TxPool)
    → IsSound p
    → Fresh tx p.all
    → (lookup_get (lookup_with tx (lookup_without old p.all)) tx.hash ≡ some tx)
      × ((h : ℕ) (u : Transaction)
          → lookup_get (lookup_with tx (lookup_without old p.all)) h ≡ some u
          → (lookup_get p.all h ≡ some u) ⊎ ((u ≡ tx) × (h ≡ tx.hash)))
looked tx old p s f = (here, there)
  where
    g : Fresh tx (lookup_without old p.all)
    g u e = f u (without-get old p tx.hash u s e)

    here : lookup_get (lookup_with tx (lookup_without old p.all)) tx.hash ≡ some tx
    here =
        let x : (tx.hash == tx.hash) ≡ true = ground arith in
        get-with tx (lookup_without old p.all) tx.hash g ∙ rw x refl

    there :
        (h : ℕ) (u : Transaction)
        → lookup_get (lookup_with tx (lookup_without old p.all)) h ≡ some u
        → (lookup_get p.all h ≡ some u) ⊎ ((u ≡ tx) × (h ≡ tx.hash))
    there h u e =
        let q = sym (get-with tx (lookup_without old p.all) h g) ∙ e in
        elim (Bool-cases (tx.hash == h)) [
          | inl x ↦ inr (sym (some_inj (simp x at q)), ground (arith, x))
          | inr x ↦ inl (without-get old p h u s (simp x at q))
        ]

-- A pool in which lists and lookup agree still agrees after enqueueTx of a transaction whose hash is
-- no other's and whose nonce is not pending.
pub enqueue_tx-Enqueued :
    (p : TxPool) (tx : Transaction)
    → IsSound p
    → Fresh tx p.all
    → place (p.pending tx.sender) tx.nonce ≡ none
    → Enqueued p tx (enqueue_tx p tx)
unfolding enqueue_tx
enqueue_tx-Enqueued p tx s f free =
    go (add (list_of false (p.queue tx.sender)) tx p.config.price_bump)
      (add-Added false (p.queue tx.sender) tx p.config.price_bump (s.of_queue tx.sender))
      (add-Loose (p.queue tx.sender) tx p.config.price_bump)
  where
    next : TxList × Bool × Option Transaction → TxPool × (TxError ⊎ Bool)
    next (l, inserted, old) =
        let p' = record p { queue = update p.queue tx.sender (some l) } in
        if inserted
        then (know tx (discard_old old p'), inr (is_some old))
        else (p', inl replace_underpriced)

    go :
        (r : TxList × Bool × Option Transaction)
        → Added (p.queue tx.sender) tx r
        → (Loose (p.queue tx.sender) → r.0.strict ≡ false)
        → Enqueued p tx (next r)
    go (l, false, old) a k = record {
      sound =
          queue_same p.pending p.queue p.all tx.sender (some l) s a.inv
            (λ n t e. sym (a.refused refl n) ∙ e);
      pending = refl;
      lookup = λ h u e. inl e;
      refused = λ b e. refl;
      accepted = λ b e. cc;
      taken = λ x e. a.taken refl;
      unmoved = λ x e. place-same p.queue tx.sender (some l) (a.refused refl);
      queued = λ c n. inl (place-same p.queue tx.sender (some l) (a.refused refl) c n);
      loose = λ h. Loose-update p.queue tx.sender (some l) h (k (h tx.sender));
      keeps = λ o h u e. e;
      complete = λ b moving e. cc;
    }
    go (l, true, old) a k =
        let q = record p { queue = update p.queue tx.sender (some l) } in
        let (x, y, z) = lookup-know tx old q in
        let (same, content) = a.accepted refl in
        let (here, there) = looked tx old p s f in
        let g = queue_put p.pending p.queue p.all tx l s f free a.inv content in
        let g' : Agrees p.pending (update p.queue tx.sender (some l))
            (lookup_with tx (lookup_without old p.all)) =
          subst
            (λ o.
              Agrees p.pending (update p.queue tx.sender (some l))
                (lookup_with tx (lookup_without o p.all)))
            (sym same) g in
        record {
          sound = rw (x, y, z) g';
          pending = y;
          lookup = rw x there;
          refused = λ b e. cc;
          accepted = λ b e. (
            ap (λ m. lookup_get m tx.hash) x ∙ here,
            ap (λ m. place (m tx.sender) tx.nonce) z ∙ place-here p.queue tx.sender l tx content,
          );
          taken = λ b e. cc;
          unmoved = λ b e. cc;
          queued = rw z (λ c n. moved content c n);
          loose = λ h. rw z (Loose-update p.queue tx.sender (some l) h (k (h tx.sender)));
          keeps = λ o h u e. rw x (kept_known o same h u e);
          complete = λ b moving e c.
              rw (x, y, z)
                (Complete-put (places p.pending p.queue)
                  (places p.pending (update p.queue tx.sender (some l))) p.all false tx old moving
                  s.sees f (place-here p.queue tx.sender l tx content) (others content) same c);
        }
      where
        kept_known :
            (place (p.queue tx.sender) tx.nonce ≡ none)
              ⊎ (place (p.queue tx.sender) tx.nonce ≡ some tx)
            → old ≡ place (p.queue tx.sender) tx.nonce
            → (h : ℕ) (u : Transaction) → lookup_get p.all h ≡ some u
            → lookup_get (lookup_with tx (lookup_without old p.all)) h ≡ some u
        kept_known o same h u e =
            let g : Fresh tx (lookup_without old p.all) =
              λ w x. f w (without-get old p tx.hash w s x) in
            get-with tx (lookup_without old p.all) h g ∙ elim (Bool-cases (tx.hash == h)) [
              | inl x ↦
                  let here : tx.hash ≡ h = ground (arith, x) in
                  rw x (ap some (sym (f u (ap (lookup_get p.all) here ∙ e))))
              | inr x ↦
                  let d : h ≢ tx.hash = λ y. ground (arith, x, y) in
                  rw x (elim o [
                    | inl n ↦ let z = same ∙ n in rw z e
                    | inr n ↦
                        let z = same ∙ n in rw z (remove-get p.all tx.hash h u s.sees.sorted d e)
                  ])
            ]

        others :
            ((n : ℕ)
              → get l.txs n ≡ (if tx.nonce == n then some tx else place (p.queue tx.sender) n))
            → (b : Bool) (c n : ℕ) → (b ≡ false → c ≡ tx.sender → n ≡ tx.nonce → ⊥)
            → places p.pending (update p.queue tx.sender (some l)) b c n
              ≡ places p.pending p.queue b c n
        others content true c n d = refl
        others content false c n d = place-other p.queue tx.sender l tx content c n (d refl)

        moved :
            ((n : ℕ)
              → get l.txs n ≡ (if tx.nonce == n then some tx else place (p.queue tx.sender) n))
            → (c n : ℕ)
            → (place (update p.queue tx.sender (some l) c) n ≡ place (p.queue c) n)
              ⊎ ((place (update p.queue tx.sender (some l) c) n ≡ some tx)
                  × (c ≡ tx.sender)
                  × (n ≡ tx.nonce))
        moved content c n = elim (same_number c tx.sender) [
          | inr d ↦ inl (place-other p.queue tx.sender l tx content c n (λ u w. d u))
          | inl u ↦ elim (same_number n tx.nonce) [
            | inr d ↦ inl (place-other p.queue tx.sender l tx content c n (λ w v. d v))
            | inl v ↦ inr (rw (u, v) (place-here p.queue tx.sender l tx content), u, v)
          ]
        ]

-- Transactions that were known and whose nonces are not pending go to the queue.
pub enqueue_all-Sound :
    (txs : List Transaction) (p : TxPool) (before : TxLookup)
    → IsSound p
    → Within p.all before
    → ((i : ℕ) (t : Transaction)
        → get_elem? txs i ≡ some t
        → (lookup_get before t.hash ≡ some t) × (place (p.pending t.sender) t.nonce ≡ none))
    → IsSound (enqueue_all p txs)
      × Within (enqueue_all p txs).all before
      × ((enqueue_all p txs).pending ≡ p.pending)
unfolding enqueue_all
enqueue_all-Sound [] p before s w h = (s, w, refl)
enqueue_all-Sound (tx ∷ txs) p before s w h =
    let (was, free) = h zero tx refl in
    let fresh : Fresh tx p.all = λ u e. some_inj (sym (w tx.hash u e) ∙ was) in
    let r = enqueue_tx-Enqueued p tx s fresh free in
    let (x, y, z) =
      enqueue_all-Sound txs (enqueue_tx p tx).0 before r.sound (within r.lookup was) (λ i t e.
        let (k, q) = h (suc i) t e in (k, ap (λ m. place (m t.sender) t.nonce) r.pending ∙ q)) in
    (x, y, z ∙ r.pending)
  where
    within :
        ((j : ℕ) (u : Transaction)
          → lookup_get (enqueue_tx p tx).0.all j ≡ some u
          → (lookup_get p.all j ≡ some u) ⊎ ((u ≡ tx) × (j ≡ tx.hash)))
        → lookup_get before tx.hash ≡ some tx
        → Within (enqueue_tx p tx).0.all before
    within lookup was j u e = elim (lookup j u e) [
      | inl x ↦ w j u x
      | inr (x, y) ↦ ap (lookup_get before) y ∙ was ∙ ap some (sym x)
    ]

-- With what was pending before, and is on its way to the queue.
abbrev pub Moving : TxPool → (ℕ → ℕ → Option Transaction) → List Transaction → Type 0
Moving p origin ts =
    (t : Transaction)
    → Among t ts
    → (origin t.sender t.nonce ≡ some t)
      × ((place (p.queue t.sender) t.nonce ≡ none) ⊎ (place (p.queue t.sender) t.nonce ≡ some t))

-- A transaction on its way stands in the queue after enqueueTx.
enqueue_tx-Complete :
    (p : TxPool) (tx : Transaction) (moving : List Transaction)
    → Enqueued p tx (enqueue_tx p tx)
    → ((place (p.queue tx.sender) tx.nonce ≡ none) ⊎ (place (p.queue tx.sender) tx.nonce ≡ some tx))
    → Complete (places p.pending p.queue) p.all (tx ∷ moving)
    → Complete
        (places (enqueue_tx p tx).0.pending (enqueue_tx p tx).0.queue)
        (enqueue_tx p tx).0.all
        moving
enqueue_tx-Complete p tx moving r o c = go (enqueue_tx p tx).1 refl
  where
    go :
        (x : TxError ⊎ Bool)
        → (enqueue_tx p tx).1 ≡ x
        → Complete
            (places (enqueue_tx p tx).0.pending (enqueue_tx p tx).0.queue)
            (enqueue_tx p tx).0.all
            moving
    go (inr b) e = r.complete b moving e c
    go (inl x) e = elim o [
      | inl n ↦ absurd (r.taken x e n)
      | inr n ↦ λ h t k. elim (c h t (ap (λ m. lookup_get m h) (sym (r.refused x e)) ∙ k)) [
        | inl (b, l) ↦ inl (b, kept x e b t.sender t.nonce ∙ l)
        | inr (inl y) ↦ inl (
            subst (Listed (places (enqueue_tx p tx).0.pending (enqueue_tx p tx).0.queue)) y
              (false, r.unmoved x e tx.sender tx.nonce ∙ n))
        | inr (inr y) ↦ inr y
      ]
    ]
      where
        kept :
            (x : TxError)
            → (enqueue_tx p tx).1 ≡ inl x
            → (b : Bool) (a n : ℕ)
            → places (enqueue_tx p tx).0.pending (enqueue_tx p tx).0.queue b a n
              ≡ places p.pending p.queue b a n
        kept x e true a n = ap (λ m. place (m a) n) r.pending
        kept x e false a n = r.unmoved x e a n

-- Transactions on their way all reach a list.
pub enqueue_all-Complete :
    (txs : List Transaction) (p : TxPool) (before : TxLookup) (origin : ℕ → ℕ → Option Transaction)
    → IsSound p
    → Within p.all before
    → ((i : ℕ) (t : Transaction)
        → get_elem? txs i ≡ some t
        → (lookup_get before t.hash ≡ some t) × (place (p.pending t.sender) t.nonce ≡ none))
    → Moving p origin txs
    → ((a : ℕ) → Loose (p.queue a))
    → Complete (places p.pending p.queue) p.all txs
    → Complete
        (places (enqueue_all p txs).pending (enqueue_all p txs).queue)
        (enqueue_all p txs).all
        []
      × ((a : ℕ) → Loose ((enqueue_all p txs).queue a))
      × Within p.all (enqueue_all p txs).all
unfolding enqueue_all
enqueue_all-Complete [] p before origin s w h m l c = (c, l, λ j u e. e)
enqueue_all-Complete (tx ∷ txs) p before origin s w h m l c =
    let (was, free) = h zero tx refl in
    let fresh : Fresh tx p.all = λ u e. some_inj (sym (w tx.hash u e) ∙ was) in
    let r = enqueue_tx-Enqueued p tx s fresh free in
    let (x, y, z) =
      enqueue_all-Complete txs (enqueue_tx p tx).0 before origin r.sound (within r.lookup was)
        (λ i t e.
          let (k, q) = h (suc i) t e in (k, ap (λ m. place (m t.sender) t.nonce) r.pending ∙ q))
        (λ t k. let (x, y) = m t (inr k) in (x, still t x y (r.queued t.sender t.nonce)))
        (r.loose l) (enqueue_tx-Complete p tx txs r (m tx (inl refl)).1 c) in
    (x, y, λ j u e. z j u (r.keeps (m tx (inl refl)).1 j u e))
  where
    still :
        (t : Transaction)
        → origin t.sender t.nonce ≡ some t
        → (place (p.queue t.sender) t.nonce ≡ none) ⊎ (place (p.queue t.sender) t.nonce ≡ some t)
        → (place ((enqueue_tx p tx).0.queue t.sender) t.nonce ≡ place (p.queue t.sender) t.nonce)
          ⊎ ((place ((enqueue_tx p tx).0.queue t.sender) t.nonce ≡ some tx)
              × (t.sender ≡ tx.sender)
              × (t.nonce ≡ tx.nonce))
        → (place ((enqueue_tx p tx).0.queue t.sender) t.nonce ≡ none)
          ⊎ (place ((enqueue_tx p tx).0.queue t.sender) t.nonce ≡ some t)
    still t x (inl y) (inl z) = inl (z ∙ y)
    still t x (inr y) (inl z) = inr (z ∙ y)
    still t x y (inr (z, u, v)) =
        let (first, _) = m tx (inl refl) in
        let same : t ≡ tx =
          some_inj (sym x ∙ ap (λ a. origin a t.nonce) u ∙ ap (origin tx.sender) v ∙ first) in
        inr (z ∙ ap some (sym same))

    within :
        ((j : ℕ) (u : Transaction)
          → lookup_get (enqueue_tx p tx).0.all j ≡ some u
          → (lookup_get p.all j ≡ some u) ⊎ ((u ≡ tx) × (j ≡ tx.hash)))
        → lookup_get before tx.hash ≡ some tx
        → Within (enqueue_tx p tx).0.all before
    within lookup was j u e = elim (lookup j u e) [
      | inl x ↦ w j u x
      | inr (x, y) ↦ ap (lookup_get before) y ∙ was ∙ ap some (sym x)
    ]
