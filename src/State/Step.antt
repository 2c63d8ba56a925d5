-- ===== src/State/Step.antt =====
-- Steps of core/state: what one call adds to the journal, and what undoing it means.
use kkchain.Base.{
  ℕ, List, [], ◌∷◌, ◌++◌, Option, none, some, false, true, ◌==◌, update_back, update_twice,
  update_same, ◌>>=◌, ◌≡◌, refl, ap, ◌∙◌, arith,
}
use mathlib.Core.List.{append_assoc}
use kkchain.State.Types.{Backend, StateObject, Entry, Journal, StateDb}
use kkchain.State.Store.{log_change, set_state_object, get_state_object}
use kkchain.State.World.{
  AccountView, World, view_object, peek, world, set_account, must_change, may_change, undo,
  undo_all,
}
use kkchain.State.Reads.{get_state_object-Found, world-get_state_object}
use kkchain.State.Undo.{world_write}
use kkchain.State.Invariant.{Inv, IsSound, Found-Frame, Found-Inv, set_state_object-Inv}

module _ {Trie : Type 0} where
  pub record Step (s s' : StateDb Trie) : Type 0 where
    pub added : List (Entry Trie)
    pub entries : s'.journal.entries ≡ added ++ s.journal.entries
    pub dbs : s'.db ≡ s.db
    pub tries : s'.trie ≡ s.trie
    pub revisions : s'.valid_revisions ≡ s.valid_revisions
    pub next_ids : s'.next_revision_id ≡ s.next_revision_id
    pub undone : undo_all s.db s.trie added (world s') ≡ some (world s)
    pub inv : Inv s'

  pub undo_all-append :
      (db : Backend Trie) (t : Trie) (es fs : List (Entry Trie)) (w : World)
      → undo_all db t (es ++ fs) w ≡ (undo_all db t es w >>= undo_all db t fs)
  unfolding undo_all
  undo_all-append db t [] fs w = refl
  undo_all-append db t (e ∷ es) fs w = go (undo_all-append db t es fs) (undo db t e w)
    where
      go :
          ((w' : World) → undo_all db t (es ++ fs) w' ≡ (undo_all db t es w' >>= undo_all db t fs))
          → (r : Option World)
          → (r >>= undo_all db t (es ++ fs)) ≡ ((r >>= undo_all db t es) >>= undo_all db t fs)
      go ih none = refl
      go ih (some w') = ih w'

  pub undo_all_move :
      {db db' : Backend Trie} {t t' : Trie} (es : List (Entry Trie)) (w : World) {r : Option World}
      → db' ≡ db
      → t' ≡ t
      → undo_all db' t' es w ≡ r
      → undo_all db t es w ≡ r
  undo_all_move es w p q h = rw (← p, ← q) h

  pub Step-refl : (s : StateDb Trie) → Inv s → Step s s
  unfolding undo_all
  Step-refl s v = record {
    added = [];
    entries = refl;
    dbs = refl;
    tries = refl;
    revisions = refl;
    next_ids = refl;
    undone = refl;
    inv = v;
  }

  pub Step-trans : {s t u : StateDb Trie} → Step s t → Step t u → Step s u
  Step-trans {s} {t} {u} p q = record {
    added = q.added ++ p.added;
    entries = rw (q.entries, p.entries, append_assoc);
    dbs = q.dbs ∙ p.dbs;
    tries = q.tries ∙ p.tries;
    revisions = q.revisions ∙ p.revisions;
    next_ids = q.next_ids ∙ p.next_ids;
    undone =
        undo_all-append s.db s.trie q.added p.added (world u)
        ∙ rw (undo_all_move q.added (world u) p.dbs p.tries q.undone) p.undone;
    inv = q.inv;
  }

  -- A load is a step that adds nothing.
  pub Step-get : (s : StateDb Trie) (a : ℕ) → Inv s → Step s (get_state_object s a).0
  unfolding undo_all
  Step-get s a v =
      let found = get_state_object-Found s a in
      let frame = Found-Frame found in
      record {
        added = [];
        entries = ap (λ (j : Journal Trie). j.entries) frame.journals;
        dbs = frame.dbs;
        tries = frame.tries;
        revisions = frame.revisions;
        next_ids = frame.next_ids;
        undone = ap some (world-get_state_object s a);
        inv = Found-Inv found v;
      }

  -- A write that one journal entry can take back.
  pub Step-logged :
      (s t : StateDb Trie) (e : Entry Trie)
      → Inv t
      → t.journal.entries ≡ e ∷ s.journal.entries
      → t.db ≡ s.db
      → t.trie ≡ s.trie
      → t.valid_revisions ≡ s.valid_revisions
      → t.next_revision_id ≡ s.next_revision_id
      → undo s.db s.trie e (world t) ≡ some (world s)
      → Step s t
  unfolding undo_all
  Step-logged s t e v entries dbs tries revisions next_ids h = record {
    added = e ∷ [];
    entries = entries;
    dbs = dbs;
    tries = tries;
    revisions = revisions;
    next_ids = next_ids;
    undone = rw h;
    inv = v;
  }

  pub world-log_change : (s : StateDb Trie) (e : Entry Trie) → world (log_change s e) ≡ world s
  unfolding world peek
  world-log_change s e = refl

  pub log_change-Inv :
      {s : StateDb Trie} (e : Entry Trie) → Inv s → IsSound e → Inv (log_change s e)
  log_change-Inv e v k = record { keyed = v.keyed; cleared = v.cleared; sound = (k, v.sound) }

  -- A write at `a` after which the entry `e` gives the old account back.
  pub Step-write :
      (s : StateDb Trie) (o : StateObject Trie) (e : Entry Trie)
      → Inv s
      → IsSound e
      → o.deleted ≡ false
      → undo s.db s.trie e (set_account (world s) o.address (some (view_object s.db o)))
        ≡ some (world s)
      → Step s (set_state_object (log_change s e) o)
  Step-write s o e v k d h =
      Step-logged s (set_state_object (log_change s e) o) e
        (set_state_object-Inv o (log_change-Inv e v k) d) refl refl refl refl refl
        (rw
          (world_write s (log_change s e) o.address o (view_object s.db o) (world-log_change s e)
            refl refl d refl)
          h)

pub set_account_back :
    (w : World) (a : ℕ) (x y : Option AccountView)
    → w.accounts a ≡ y
    → set_account (set_account w a x) a y ≡ w
set_account_back w a x y h =
    ap (λ (m : ℕ → Option AccountView). record w { accounts = m }) (update_back w.accounts a x y h)

pub same_key : (a : ℕ) → (a == a) ≡ true
same_key a = ground arith

-- Putting a field back.
pub must_back :
    (f : AccountView → AccountView) (w : World) (a : ℕ) (v v' : AccountView)
    → w.accounts a ≡ some v
    → f v' ≡ v
    → must_change f (set_account w a (some v')) a ≡ some w
must_back f w a v v' h e =
    rw (same_key a, must_change) (ap some (set_account_back w a (some v') (some (f v')) (rw e h)))

pub may_back :
    (f : AccountView → AccountView) (w : World) (a : ℕ) (v v' : AccountView)
    → w.accounts a ≡ some v
    → f v' ≡ v
    → may_change f (set_account w a (some v')) a ≡ some w
may_back f w a v v' h e =
    rw (same_key a, may_change) (ap some (set_account_back w a (some v') (some (f v')) (rw e h)))

pub set_account_twice :
    (w : World) (a : ℕ) (x y : Option AccountView)
    → set_account (set_account w a x) a y ≡ set_account w a y
set_account_twice w a x y =
    ap (λ (m : ℕ → Option AccountView). record w { accounts = m }) (update_twice w.accounts a x y)

pub set_account_same :
    (w : World) (a : ℕ) (x : Option AccountView) → w.accounts a ≡ x → set_account w a x ≡ w
set_account_same w a x h =
    ap (λ (m : ℕ → Option AccountView). record w { accounts = m }) (update_same w.accounts a x h)
