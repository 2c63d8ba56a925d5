-- ===== src/State/Reads.antt =====
-- Reading through the caches: what the loads of core/state leave observable, and what the
-- setters of an object change in its view.
use kkchain.Base.{
  ℕ, List, [], ◌∷◌, Option, none, some, false, update_same, Bool-cases, Option-cases, ◌≡◌, refl, ap,
  fun_ext, inl, inr, ◌∙◌, arith,
}
use kkchain.State.Types.{Err, StateObject, StateDb}
use kkchain.State.Object.{new_object}
use kkchain.State.Store.{set_state_object, set_db_error, get_state_object}
use kkchain.State.World.{AccountView, stored_object, visible, peek, view_option, world, set_account}

module _ {Trie : Type 0} where
  -- The three ways in which `getStateObject` can end.
  pub data Found (s : StateDb Trie) (a : ℕ) (s' : StateDb Trie) (r : Option (StateObject Trie))
      : Type 0 where
    missing : (e : Option Err) → r ≡ none → peek s a ≡ none → s' ≡ set_db_error s e → Found s a s' r
    live :
        (o : StateObject Trie)
        → r ≡ some o
        → s' ≡ s
        → s.state_objects a ≡ some o
        → o.deleted ≡ false
        → Found s a s' r
    loaded :
        (o : StateObject Trie)
        → r ≡ some o
        → s' ≡ set_state_object s o
        → s.state_objects o.address ≡ none
        → stored_object s.db s.trie o.address ≡ some o
        → o.address ≡ a
        → o.deleted ≡ false
        → Found s a s' r

  set_no_error : (s : StateDb Trie) → set_db_error s none ≡ s
  set_no_error s = ground arith

  -- Each call of `getStateObject` ends in one of them.
  load-Found :
      (s : StateDb Trie) (a : ℕ)
      → s.state_objects a ≡ none
      → (enc : List ℕ) (err : Option Err) → s.db.try_get s.trie a ≡ (enc, err)
      → Found s a (get_state_object s a).0 (get_state_object s a).1
  unfolding get_state_object peek stored_object
  load-Found s a e [] err h = missing err (ground arith) (ground arith) (ground arith)
  load-Found s a e (b ∷ enc) err h = elim (Option-cases (s.db.decode_account (b ∷ enc))) [
    | inl d ↦ missing none (ground arith) (ground arith) (ground arith)
    | inr (d, f) ↦
        loaded (new_object s.db a d) (ground arith) (ground arith) e (ground arith) refl refl
  ]

  pub get_state_object-Found :
      (s : StateDb Trie) (a : ℕ) → Found s a (get_state_object s a).0 (get_state_object s a).1
  unfolding get_state_object peek
  get_state_object-Found s a = elim (Option-cases (s.state_objects a)) [
    | inl e ↦ load-Found s a e (s.db.try_get s.trie a).0 (s.db.try_get s.trie a).1 refl
    | inr (o, e) ↦ elim (Bool-cases o.deleted) [
      | inl d ↦ missing none (ground arith) (ground arith) (ground arith)
      | inr d ↦ live o (ground arith) (ground arith) e d
    ]
  ]

  -- Writing an object shows its view at its address, or no account if it is deleted.
  pub world-set_state_object :
      (s : StateDb Trie) (o : StateObject Trie)
      → world (set_state_object s o)
        ≡ set_account (world s) o.address (view_option s.db (visible o))
  unfolding world peek
  world-set_state_object s o =
      ap (λ (f : ℕ → Option AccountView). record (world s) { accounts = f })
        (fun_ext (λ j. ground arith))

  world-set_db_error : (s : StateDb Trie) (e : Option Err) → world (set_db_error s e) ≡ world s
  unfolding world peek
  world-set_db_error s e = refl

  world-loaded :
      (s : StateDb Trie) (o : StateObject Trie)
      → s.state_objects o.address ≡ none
      → stored_object s.db s.trie o.address ≡ some o
      → o.deleted ≡ false
      → world (set_state_object s o) ≡ world s
  unfolding world peek
  world-loaded s o e st d =
      world-set_state_object s o
      ∙ ap (λ (f : ℕ → Option AccountView). record (world s) { accounts = f })
          (update_same (world s).accounts o.address (view_option s.db (visible o)) (ground arith))

  pub Found-world :
      {s s' : StateDb Trie} {a : ℕ} {r : Option (StateObject Trie)}
      → Found s a s' r
      → world s' ≡ world s
  Found-world {s} (missing e _ _ q) = rw q (world-set_db_error s e)
  Found-world (live o _ q _ _) = ap world q
  Found-world {s} (loaded o _ q e st _ d) = rw q (world-loaded s o e st d)

  -- A load changes nothing that can be observed.
  pub world-get_state_object : (s : StateDb Trie) (a : ℕ) → world (get_state_object s a).0 ≡ world s
  world-get_state_object s a = Found-world (get_state_object-Found s a)
