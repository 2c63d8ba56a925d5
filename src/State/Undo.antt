-- ===== src/State/Undo.antt =====
-- `revert` of a journal entry of core/state on the world of the state.
use kkchain.Base.{
  ℕ, List, [], ◌∷◌, Option, none, some, false, update, ◌>>=◌, fun_ext, ◌≡◌, refl, ap, ◌∙◌, arith,
}
use kkchain.State.Types.{
  StateObject, Entry, Log, StateDb, create_object_change, reset_object_change, suicide_change,
  balance_change, nonce_change, storage_change, code_change, refund_change, add_log_change,
  add_preimage_change, touch_change,
}
use kkchain.State.Object.{set_object_state, set_object_balance, set_object_nonce, set_object_code}
use kkchain.State.Store.{set_state_object, get_state_object}
use kkchain.State.Revert.{change_found, change_if_found, pop_log, revert_entry}
use kkchain.State.World.{
  AccountView, view_object, visible, peek, view_option, world, set_account, must_change, may_change,
  undo, code_at, stored_object,
}
use kkchain.State.Reads.{
  Found, missing, live, loaded, get_state_object-Found, Found-world, world-set_state_object,
}
use kkchain.State.Views.{
  view-set_balance, view-set_nonce, view-set_suicided, view-set_state, view-set_code,
}
use kkchain.State.Invariant.{Inv, Found-Frame}

module _ {Trie : Type 0} where
  -- What a lookup that finds an object says of it.
  pub record Holds (s s' : StateDb Trie) (a : ℕ) (o : StateObject Trie) : Type 0 where
    pub address : o.address ≡ a
    pub alive : o.deleted ≡ false
    pub shown : (world s).accounts a ≡ some (view_object s.db o)

  pub Found-none :
      {s s' : StateDb Trie} {a : ℕ} {r : Option (StateObject Trie)}
      → Found s a s' r
      → r ≡ none
      → (peek s a ≡ none) × ((world s).accounts a ≡ none)
  unfolding world
  Found-none (missing e _ p q) h = (p, rw p)
  Found-none (live o e _ _ _) h = cc
  Found-none (loaded o e _ _ _ _ _) h = cc

  pub Found-some :
      {s s' : StateDb Trie} {a : ℕ} {r : Option (StateObject Trie)} (o : StateObject Trie)
      → Found s a s' r
      → Inv s
      → r ≡ some o
      → Holds s s' a o
  unfolding world peek
  Found-some o (missing e p _ _) v h = cc
  Found-some {s} {a = a} o (live o' e q l d) v h = record {
    address = ground (arith, v.keyed a o' l);
    alive = ground arith;
    shown = ground arith;
  }
  Found-some {s} {a = a} o (loaded o' e q l st k d) v h = record {
    address = ground arith;
    alive = ground arith;
    shown = ground arith;
  }

  pub visible_lem : (o : StateObject Trie) → o.deleted ≡ false → visible o ≡ some o
  visible_lem o d = ground arith

  -- Writing a changed copy of the object that was found.
  pub world_write :
      (s s' : StateDb Trie) (a : ℕ) (o : StateObject Trie) (w : AccountView)
      → world s' ≡ world s
      → s'.db ≡ s.db
      → o.address ≡ a
      → o.deleted ≡ false
      → view_object s.db o ≡ w
      → world (set_state_object s' o) ≡ set_account (world s) a (some w)
  world_write s s' a o w e b k d h =
      world-set_state_object s' o ∙ simp (e, b, k, visible_lem o d, h)

  module _ (f : StateObject Trie → StateObject Trie) (g : AccountView → AccountView)
      (s : StateDb Trie)
      (views : (o : StateObject Trie) → view_object s.db (f o) ≡ g (view_object s.db o))
      (places : (o : StateObject Trie) → (f o).address ≡ o.address)
      (lives : (o : StateObject Trie) → (f o).deleted ≡ o.deleted) (a : ℕ) (v : Inv s) where
    write-Found :
        {s' : StateDb Trie} {r : Option (StateObject Trie)} (o : StateObject Trie)
        → Found s a s' r
        → r ≡ some o
        → world (set_state_object s' (f o))
          ≡ set_account (world s) a (some (g (view_object s.db o)))
    write-Found {s'} o found h =
        let hold = Found-some o found v h in
        world_write s s' a (f o) (g (view_object s.db o)) (Found-world found)
          (Found-Frame found).dbs (places o ∙ hold.address) (lives o ∙ hold.alive) (views o)

    must_lem :
        (s' : StateDb Trie) (r : Option (StateObject Trie))
        → Found s a s' r
        → (elim r [ none ↦ none | some o ↦ some (world (set_state_object s' (f o))) ])
          ≡ must_change g (world s) a
    must_lem s' none found = rw ((Found-none found refl).1, must_change)
    must_lem s' (some o) found =
        rw ((Found-some o found v refl).shown, must_change) (ap some (write-Found o found refl))

    may_lem :
        (s' : StateDb Trie) (r : Option (StateObject Trie))
        → Found s a s' r
        → (elim r [ none ↦ some (world s') | some o ↦ some (world (set_state_object s' (f o))) ])
          ≡ may_change g (world s) a
    may_lem s' none found = rw ((Found-none found refl).1, may_change) (ap some (Found-world found))
    may_lem s' (some o) found =
        rw ((Found-some o found v refl).shown, may_change) (ap some (write-Found o found refl))

    must_undo :
        (change_found f (get_state_object s a) >>= λ t. some (world t)) ≡ must_change g (world s) a
    must_undo = go (get_state_object s a).0 (get_state_object s a).1 (get_state_object-Found s a)
      where
        go :
            (s' : StateDb Trie) (r : Option (StateObject Trie))
            → Found s a s' r
            → (change_found f (s', r) >>= λ t. some (world t)) ≡ must_change g (world s) a
        go s' none found = unfold change_found in must_lem s' none found
        go s' (some o) found = unfold change_found in must_lem s' (some o) found

    may_undo :
        (change_if_found f (get_state_object s a) >>= λ t. some (world t))
        ≡ may_change g (world s) a
    may_undo = go (get_state_object s a).0 (get_state_object s a).1 (get_state_object-Found s a)
      where
        go :
            (s' : StateDb Trie) (r : Option (StateObject Trie))
            → Found s a s' r
            → (change_if_found f (s', r) >>= λ t. some (world t)) ≡ may_change g (world s) a
        go s' none found = unfold change_if_found in may_lem s' none found
        go s' (some o) found = unfold change_if_found in may_lem s' (some o) found

  world-forget :
      (s : StateDb Trie) (a : ℕ)
      → world (record s {
        state_objects = update s.state_objects a none;
        state_objects_dirty = update s.state_objects_dirty a false;
      })
        ≡ set_account (world s) a (view_option s.db (stored_object s.db s.trie a))
  unfolding world peek
  world-forget s a =
      ap (λ (m : ℕ → Option AccountView). record (world s) { accounts = m })
        (fun_ext (λ j. ground arith))

  world-pop_log :
      (s : StateDb Trie) (txhash : ℕ)
      → (pop_log s txhash >>= λ t. some (world t))
        ≡ undo s.db s.trie (add_log_change txhash) (world s)
  unfolding pop_log undo world peek
  world-pop_log s txhash = go (s.logs txhash) refl
    where
      go :
          (logs : List Log)
          → s.logs txhash ≡ logs
          → (pop_log s txhash >>= λ t. some (world t))
            ≡ undo s.db s.trie (add_log_change txhash) (world s)
      go [] e = rw (e, pop_log, undo)
      go (log ∷ more) e = rw (e, pop_log, undo)

  -- Taking back an entry acts on the world as `undo` says, panics included.
  pub world-revert_entry :
      (e : Entry Trie) (s : StateDb Trie)
      → Inv s
      → (revert_entry e s >>= λ t. some (world t)) ≡ undo s.db s.trie e (world s)
  unfolding revert_entry undo
  world-revert_entry (create_object_change a) s v = ap some (world-forget s a)
  world-revert_entry (reset_object_change prev) s v = ap some (world-set_state_object s prev)
  world-revert_entry (suicide_change a prev balance) s v =
      may_undo (λ o. set_object_balance (record o { suicided = prev }) balance)
        (λ w. record w { balance = balance; suicided = prev }) s
        (λ o. view-set_suicided s.db o balance prev) (λ o. refl) (λ o. refl) a v
  world-revert_entry (balance_change a prev) s v =
      must_undo (λ o. set_object_balance o prev) (λ w. record w { balance = prev }) s
        (λ o. view-set_balance s.db o prev) (λ o. refl) (λ o. refl) a v
  world-revert_entry (nonce_change a prev) s v =
      must_undo (λ o. set_object_nonce o prev) (λ w. record w { nonce = prev }) s
        (λ o. view-set_nonce s.db o prev) (λ o. refl) (λ o. refl) a v
  world-revert_entry (storage_change a key prev) s v =
      must_undo (λ o. set_object_state o key prev)
        (λ w. record w { storage = update w.storage key prev }) s
        (λ o. view-set_state s.db o key prev) (λ o. refl) (λ o. refl) a v
  world-revert_entry (code_change a prevcode prevhash) s v =
      must_undo (λ o. set_object_code o prevhash prevcode)
        (λ w. record w { code_hash = prevhash; code = code_at s.db w.addr_hash prevhash prevcode })
        s (λ o. unfold view_object in view-set_code s.db o prevhash prevcode) (λ o. refl)
        (λ o. refl) a v
  world-revert_entry (refund_change prev) s v = unfold world peek in refl
  world-revert_entry (add_log_change txhash) s v = world-pop_log s txhash
  world-revert_entry (add_preimage_change hash) s v = unfold world peek in refl
  world-revert_entry (touch_change a) s v = refl
