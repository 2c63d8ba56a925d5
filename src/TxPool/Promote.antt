-- ===== src/TxPool/Promote.antt =====
-- `promoteTx` of core/tx_pool.go.
use kkchain.Base.{
  [], ◌∷◌, inl, inr, ℕ, ◌+◌, ◌%◌, ◌^◌, Option, none, some, Bool, true, false, ◌==◌, if◌then◌else◌,
  update, ◌≡◌, ◌≢◌, refl, ap, sym, subst, ◌∙◌, arith,
}
use kkchain.Pool.SortedMap.{Transaction, get}
use kkchain.Pool.TxList.{TxList, add}
use kkchain.TxPool.Priced.{lookup_get, lookup_remove}
use kkchain.TxPool.Defs.{TxPool, list_of, discard_old, know, promote_tx}
use kkchain.TxPool.Places.{Fresh, Sees-remove, lookup_with, lookup_without}
use kkchain.TxPool.Lookup.{find_entry-delete_entry}
use kkchain.TxPool.Moves.{place, Added, add-Added}
use kkchain.TxPool.Sound.{
  Loose, Whole, place-same, place-other, places, Agrees, IsSound, lookup-know, pending_put,
  pending_same,
}
use kkchain.TxPool.Complete.{Complete, Complete-forget, Complete-put}
use kkchain.TxPool.Enqueue.{looked}

-- What promoteTx leaves: a promoted transaction is known and pending, and the next nonce of the account
-- follows its nonce; another is not known any more.
pub record Promotes (p : TxPool) (tx : Transaction) (r : TxPool × Bool) : Type 0 where
  pub sound : IsSound r.0
  pub promoted :
      r.1 ≡ true
      → (lookup_get r.0.all tx.hash ≡ some tx)
        × (place (r.0.pending tx.sender) tx.nonce ≡ some tx)
        × (r.0.pending_nonce tx.sender ≡ (tx.nonce + 1) % (2 ^ 64))
  pub dropped : r.1 ≡ false → lookup_get r.0.all tx.hash ≡ none
  pub queue : r.0.queue ≡ p.queue
  pub complete :
      Complete (places p.pending p.queue) p.all (tx ∷ [])
      → Complete (places r.0.pending r.0.queue) r.0.all []

-- A pool whose lists and lookup agree still does after promoteTx of a transaction for its sender, where
-- the hash is no other's, the transaction is not pending, and its nonce is not queued.
pub promote_tx-Promotes :
    (p : TxPool) (tx : Transaction) (now : ℕ)
    → IsSound p
    → Fresh tx p.all
    → place (p.queue tx.sender) tx.nonce ≡ none
    → place (p.pending tx.sender) tx.nonce ≢ some tx
    → Promotes p tx (promote_tx p tx.sender tx now)
unfolding promote_tx discard_old
promote_tx-Promotes p tx now s f free d =
    go (add (list_of true (p.pending tx.sender)) tx p.config.price_bump)
      (add-Added true (p.pending tx.sender) tx p.config.price_bump (s.of_pending tx.sender))
  where
    next : TxList × Bool × Option Transaction → TxPool × Bool
    next (l, inserted, old) =
        let p' = record p { pending = update p.pending tx.sender (some l) } in
        let known = know tx (discard_old old p') in
        if inserted
        then (
          record known {
            beats = update known.beats tx.sender (some now);
            pending_nonce = update known.pending_nonce tx.sender ((tx.nonce + 1) % (2 ^ 64));
          },
          true,
        )
        else (discard_old (some tx) p', false)

    unlisted :
        (b : Bool) (a n : ℕ) (t : Transaction)
        → places p.pending p.queue b a n ≡ some t
        → t.hash ≢ tx.hash
    unlisted b a n t e h =
        let (known, sender, nonce) = s.sees.known b a n t e in
        let same : t ≡ tx = f t (ap (lookup_get p.all) (sym h) ∙ known) in
        let there : places p.pending p.queue b tx.sender tx.nonce ≡ some tx =
          ap (λ (r : Transaction). places p.pending p.queue b r.sender r.nonce) (sym same)
          ∙ ap (λ k. places p.pending p.queue b k t.nonce) sender
          ∙ ap (places p.pending p.queue b a) nonce
          ∙ e
          ∙ ap some same in
        nowhere b there
      where
        nowhere : (b : Bool) → places p.pending p.queue b tx.sender tx.nonce ≡ some tx → ⊥
        nowhere true x = d x
        nowhere false x = cc

    forgotten : lookup_get (lookup_remove p.all tx.hash) tx.hash ≡ none
    forgotten =
        let x : (tx.hash == tx.hash) ≡ true = ground arith in
        find_entry-delete_entry tx.hash tx.hash p.all s.sees.sorted ∙ rw x refl

    go :
        (r : TxList × Bool × Option Transaction)
        → Added (p.pending tx.sender) tx r
        → Promotes p tx (next r)
    go (l, false, old) a = record {
      sound =
          pending_same p.pending p.queue (lookup_remove p.all tx.hash) tx.sender (some l)
            (record {
              sees = Sees-remove (places p.pending p.queue) p.all tx.hash s.sees unlisted;
              of_pending = s.of_pending;
              of_queue = s.of_queue;
            })
            a.inv (λ n t e. sym (a.refused refl n) ∙ e);
      promoted = λ e. cc;
      dropped = λ e. forgotten;
      queue = refl;
      complete = λ c.
          Complete-forget (places (update p.pending tx.sender (some l)) p.queue)
            (places p.pending p.queue) p.all tx.hash tx [] s.sees refl
            (λ h t e. elim (c h t e) [
              | inl (b, k) ↦ inl (b, same_place (a.refused refl) b t.sender t.nonce ∙ k)
              | inr y ↦ inr y
            ]);
    }
      where
        same_place :
            ((n : ℕ) → get l.txs n ≡ place (p.pending tx.sender) n)
            → (b : Bool) (c n : ℕ)
            → places (update p.pending tx.sender (some l)) p.queue b c n
              ≡ places p.pending p.queue b c n
        same_place h false c n = refl
        same_place h true c n = place-same p.pending tx.sender (some l) h c n
    go (l, true, old) a =
        let q = record p { pending = update p.pending tx.sender (some l) } in
        let (x, y, z) = lookup-know tx old q in
        let (same, content) = a.accepted refl in
        let g = pending_put p.pending p.queue p.all tx l s f free a.inv content in
        let g' : Agrees q.pending p.queue (lookup_with tx (lookup_without old p.all)) =
          subst (λ o. Agrees q.pending p.queue (lookup_with tx (lookup_without o p.all))) (sym same)
            g in
        record {
          sound = rw (x, y, z) g';
          promoted = λ e. (
            ap (λ m. lookup_get m tx.hash) x ∙ (looked tx old p s f).0,
            ap (λ m. place (m tx.sender) tx.nonce) y ∙ in_list content,
            nonce_set (know tx (discard_old old q)).pending_nonce,
          );
          dropped = λ e. cc;
          queue = z;
          complete = λ c.
              rw (x, y, z)
                (Complete-put (places p.pending p.queue) (places q.pending p.queue) p.all true tx
                  old [] s.sees f (in_list content) (others content) same c);
        }
      where
        others :
            ((n : ℕ)
              → get l.txs n ≡ (if tx.nonce == n then some tx else place (p.pending tx.sender) n))
            → (b : Bool) (c n : ℕ) → (b ≡ true → c ≡ tx.sender → n ≡ tx.nonce → ⊥)
            → places (update p.pending tx.sender (some l)) p.queue b c n
              ≡ places p.pending p.queue b c n
        others content false c n d = refl
        others content true c n d = place-other p.pending tx.sender l tx content c n (d refl)

        in_list :
            ((n : ℕ)
              → get l.txs n ≡ (if tx.nonce == n then some tx else place (p.pending tx.sender) n))
            → place (update p.pending tx.sender (some l) tx.sender) tx.nonce ≡ some tx
        in_list content =
            let b : (tx.sender == tx.sender) ≡ true = ground arith in
            let n : (tx.nonce == tx.nonce) ≡ true = ground arith in
            rw b (content tx.nonce ∙ rw n refl)

        nonce_set :
            (m : ℕ → ℕ)
            → update m tx.sender ((tx.nonce + 1) % (2 ^ 64)) tx.sender ≡ (tx.nonce + 1) % (2 ^ 64)
        nonce_set m = let b : (tx.sender == tx.sender) ≡ true = ground arith in rw b refl

-- What promoteTx leaves: lists and lookup that agree both ways; a promoted transaction is known and
-- pending, and the next nonce of the account follows its nonce; another is not known any more.
pub record Promoted (p : TxPool) (tx : Transaction) (r : TxPool × Bool) : Type 0 where
  pub whole : Whole r.0
  pub promoted :
      r.1 ≡ true
      → (lookup_get r.0.all tx.hash ≡ some tx)
        × (place (r.0.pending tx.sender) tx.nonce ≡ some tx)
        × (r.0.pending_nonce tx.sender ≡ (tx.nonce + 1) % (2 ^ 64))
  pub dropped : r.1 ≡ false → lookup_get r.0.all tx.hash ≡ none
  pub queue : r.0.queue ≡ p.queue

-- From a pool in which lists and lookup agree but that this transaction may be known and in no list, so
-- that its nonce is not queued and it is not pending, and in which no other has its hash, promoteTx for
-- its sender leaves lists and lookup that agree both ways, every known transaction being listed. A
-- promoted transaction is known and pending, and the next nonce of the account follows its nonce;
-- another is not known any more.
pub promote_tx-Promoted :
    (p : TxPool) (tx : Transaction) (now : ℕ)
    → IsSound p
    → Complete (places p.pending p.queue) p.all (tx ∷ [])
    → ((a : ℕ) → Loose (p.queue a))
    → Fresh tx p.all
    → place (p.queue tx.sender) tx.nonce ≡ none
    → place (p.pending tx.sender) tx.nonce ≢ some tx
    → Promoted p tx (promote_tx p tx.sender tx now)
promote_tx-Promoted p tx now s c l f free d =
    let r = promote_tx-Promotes p tx now s f free d in
    record {
      whole = record { agrees = r.sound; complete = r.complete c; loose = rw r.queue l };
      promoted = r.promoted;
      dropped = r.dropped;
      queue = r.queue;
    }
