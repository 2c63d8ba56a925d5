-- ===== src/TxPool/Demotion.antt =====
-- `demoteUnexecutables` of core/tx_pool.go keeps the lists and the lookup in agreement.
use kkchain.Base.{
  ℕ, zero, suc, List, [], ◌∷◌, Option, none, some, Bool, true, not, ◌==◌, Option-cases, update,
  get_elem?, ◌≡◌, ◌>>=◌, refl, ap, sym, subst, ◌∙◌, inl, inr, arith, some_inj,
}
use kkchain.Pool.SortedMap.{Transaction, find_entry, get, select, values}
use kkchain.Pool.Entries.{Ascending}
use kkchain.Pool.Loops.{is_below}
use kkchain.Pool.Upkeep.{Inv, Forwarded, forward_lem}
use kkchain.Pool.TxList.{TxList, forward_list}
use kkchain.TxPool.Defs.{TxPool}
use kkchain.TxPool.Demote.{forget_all, with_pending, demote_old}
use kkchain.TxPool.Lookup.{find_entry-select, get_elem?-select}
use kkchain.TxPool.Moves.{place, OfList}
use kkchain.TxPool.Sound.{Agrees, IsSound}
use kkchain.TxPool.Shed.{Leaves, lookup_minus, shed, forget_all-fields, forget_some-map}

-- What a filter takes out stood under its nonce, and does not any more.
pub left_out :
    (f : Transaction → Bool) (es : List (ℕ × Transaction)) (i : ℕ) (t : Transaction)
    → Ascending es
    → get_elem? (values (select f es)) i ≡ some t
    → (find_entry t.nonce es ≡ some t) × (find_entry t.nonce (select (λ tx. not (f tx)) es) ≡ none)
left_out f es i t a e =
    let (found, picked) = get_elem?-select f es i t a e in
    (
      found,
      elim (Option-cases (find_entry t.nonce (select (λ tx. not (f tx)) es))) [
        | inl z ↦ z
        | inr (u, z) ↦
            let (there, passed) = find_entry-select (λ tx. not (f tx)) t.nonce es u a z in
            let same : t ≡ u = some_inj (sym found ∙ there) in
            let other : not (f t) ≡ true = ap (λ x. not (f x)) same ∙ passed in
            let no : not true ≡ true = sym (ap not picked) ∙ other in cc
      ],
    )

pub Leaves-of :
    (o : Option TxList) (l : TxList) (ts : List Transaction)
    → ((i : ℕ) (t : Transaction)
        → get_elem? ts i ≡ some t
        → (place o t.nonce ≡ some t) × (get l.txs t.nonce ≡ none))
    → Leaves o l ts
Leaves-of o l [] h = tt
Leaves-of o l (t ∷ ts) h = (h zero t refl, Leaves-of o l ts (λ i u e. h (suc i) u e))

-- A pool and the pending list of an account in it.
pub record Holds (addr : ℕ) (r : TxPool × TxList) : Type 0 where
  pub sound : IsSound r.0
  pub listed : r.0.pending addr ≡ some r.1

pub update-here : (m : ℕ → Option TxList) (s : ℕ) (o : Option TxList) → update m s o s ≡ o
update-here m s o = let x : (s == s) ≡ true = ground arith in rw x refl

Holds-forget_all :
    (p : TxPool) (addr : ℕ) (l : TxList) (ts : List Transaction)
    → Agrees (update p.pending addr (some l)) p.queue (lookup_minus ts p.all)
    → Holds addr (forget_all (with_pending p addr l) ts, l)
Holds-forget_all p addr l ts g =
    let (x, y, z) = forget_all-fields ts (with_pending p addr l) in
    record {
      sound = rw (x, y, z) g;
      listed = ap (λ m. m addr) x ∙ update-here p.pending addr (some l);
    }

pub demote_old-Holds :
    (p : TxPool) (addr : ℕ) (l : TxList)
    → Holds addr (p, l)
    → (r : TxPool × TxList) × (demote_old p addr l ≡ some r) × Holds addr r
unfolding demote_old forward_list get
demote_old-Holds p addr l h =
    let v : Inv l.txs = subst OfList h.listed (h.sound.of_pending addr) in
    let f = forward_lem l.txs (p.nonce_of addr) v in
    let l' = record l { txs = f.result } in
    let low = values (select (is_below (p.nonce_of addr)) l.txs.items) in
    let g =
      shed p.pending p.queue p.all addr l' low h.sound f.inv (λ n t e. kept f n t v e)
        (Leaves-of (p.pending addr) l' low (λ i t e. gone f i t v e)) in
    (
      (forget_all (with_pending p addr l') low, l'),
      rw f.returned
          (ap (λ o. o >>= λ q. some (q, l')) (forget_some-map low (with_pending p addr l'))),
      Holds-forget_all p addr l' low g,
    )
  where
    kept :
        (f : Forwarded l.txs (p.nonce_of addr)) (n : ℕ) (t : Transaction)
        → Inv l.txs
        → find_entry n f.result.items ≡ some t
        → place (p.pending addr) n ≡ some t
    kept f n t v e =
        ap (λ o. place o n) h.listed
        ∙ (find_entry-select (λ tx. not (is_below (p.nonce_of addr) tx)) n l.txs.items t v.ascending
            (ap (find_entry n) (sym f.kept) ∙ e)).0

    gone :
        (f : Forwarded l.txs (p.nonce_of addr)) (i : ℕ) (t : Transaction)
        → Inv l.txs
        → get_elem? (values (select (is_below (p.nonce_of addr)) l.txs.items)) i ≡ some t
        → (place (p.pending addr) t.nonce ≡ some t) × (find_entry t.nonce f.result.items ≡ none)
    gone f i t v e =
        let (x, y) = left_out (is_below (p.nonce_of addr)) l.txs.items i t v.ascending e in
        (ap (λ o. place o t.nonce) h.listed ∙ x, ap (find_entry t.nonce) f.kept ∙ y)
