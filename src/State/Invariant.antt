-- ===== src/State/Invariant.antt =====
-- The invariant of a StateDB between calls, and what one call leaves alone.
use kkchain.Base.{ℕ, List, [], ◌∷◌, Option, none, some, true, false, ◌≡◌, refl, ◌∙◌, arith}
use kkchain.State.Types.{
  StateObject, Entry, StateDb, create_object_change, reset_object_change, suicide_change,
  balance_change, nonce_change, storage_change, code_change, refund_change, add_log_change,
  add_preimage_change, touch_change,
}
use kkchain.State.Store.{set_state_object}
use kkchain.State.World.{stored_object}
use kkchain.State.Reads.{Found, missing, live, loaded}

module _ {Trie : Type 0} where
  -- An object that an entry can put back is not deleted.
  abbrev pub IsSound : Entry Trie → Type 0
  IsSound (reset_object_change prev) = prev.deleted ≡ false
  IsSound (create_object_change _) = Unit {0}
  IsSound (suicide_change _ _ _) = Unit {0}
  IsSound (balance_change _ _) = Unit {0}
  IsSound (nonce_change _ _) = Unit {0}
  IsSound (storage_change _ _ _) = Unit {0}
  IsSound (code_change _ _ _) = Unit {0}
  IsSound (refund_change _) = Unit {0}
  IsSound (add_log_change _) = Unit {0}
  IsSound (add_preimage_change _) = Unit {0}
  IsSound (touch_change _) = Unit {0}

  abbrev pub AllSound : List (Entry Trie) → Type 0
  AllSound [] = Unit {0}
  AllSound (e ∷ es) = IsSound e × AllSound es

  pub record Inv (s : StateDb Trie) : Type 0 where
    pub keyed : (a : ℕ) (o : StateObject Trie) → s.state_objects a ≡ some o → o.address ≡ a
    pub cleared :
        (a : ℕ) (o : StateObject Trie)
        → s.state_objects a ≡ some o
        → o.deleted ≡ true
        → stored_object s.db s.trie a ≡ none
    pub sound : AllSound s.journal.entries

  -- What neither a load nor a write of an object touches.
  pub record Frame (s s' : StateDb Trie) : Type 0 where
    pub dbs : s'.db ≡ s.db
    pub tries : s'.trie ≡ s.trie
    pub journals : s'.journal ≡ s.journal
    pub revisions : s'.valid_revisions ≡ s.valid_revisions
    pub next_ids : s'.next_revision_id ≡ s.next_revision_id

  pub Frame-refl : (s : StateDb Trie) → Frame s s
  Frame-refl s = record {
    dbs = refl;
    tries = refl;
    journals = refl;
    revisions = refl;
    next_ids = refl;
  }

  pub Frame-trans : {s t u : StateDb Trie} → Frame s t → Frame t u → Frame s u
  Frame-trans f g = record {
    dbs = g.dbs ∙ f.dbs;
    tries = g.tries ∙ f.tries;
    journals = g.journals ∙ f.journals;
    revisions = g.revisions ∙ f.revisions;
    next_ids = g.next_ids ∙ f.next_ids;
  }

  pub set_state_object-Inv :
      {s : StateDb Trie} (o : StateObject Trie)
      → Inv s
      → o.deleted ≡ false
      → Inv (set_state_object s o)
  set_state_object-Inv {s} o v d = record {
    keyed = λ a o' h. ground (arith, v.keyed a o');
    cleared = λ a o' h d'. ground (arith, v.cleared a o');
    sound = v.sound;
  }

  pub Found-Frame :
      {s s' : StateDb Trie} {a : ℕ} {r : Option (StateObject Trie)} → Found s a s' r → Frame s s'
  Found-Frame {s} (missing e _ _ q) =
      rw q (record { dbs = refl; tries = refl; journals = refl; revisions = refl; next_ids = refl })
  Found-Frame {s} (live o _ q _ _) = rw q (Frame-refl s)
  Found-Frame {s} (loaded o _ q _ _ _ _) =
      rw q (record { dbs = refl; tries = refl; journals = refl; revisions = refl; next_ids = refl })

  pub Found-Inv :
      {s s' : StateDb Trie} {a : ℕ} {r : Option (StateObject Trie)}
      → Found s a s' r
      → Inv s
      → Inv s'
  Found-Inv {s} (missing e _ _ q) v =
      rw q (record { keyed = v.keyed; cleared = v.cleared; sound = v.sound })
  Found-Inv {s} (live o _ q _ _) v = rw q v
  Found-Inv {s} (loaded o _ q _ _ _ d) v = rw q (set_state_object-Inv o v d)
