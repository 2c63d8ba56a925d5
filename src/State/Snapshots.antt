-- ===== src/State/Snapshots.antt =====
-- `Snapshot` and `RevertToSnapshot` of core/state/statedb.go around runs of calls.
use mathlib.Core.List.{append-nil, append_assoc}
use mathlib.Core.Path.{subst₂}
use kkchain.Base.{
  ◌≤◌, List, [], ◌∷◌, ◌++◌, some, length, some_inj, bind_some, ◌≡◌, refl, ap, sym, subst, ◌∙◌,
  arith,
}
use kkchain.State.Types.{Entry, Revision, StateDb}
use kkchain.State.Revert.{snapshot, find_revision, revert_to_snapshot}
use kkchain.State.World.{peek, world, undo_all}
use kkchain.State.Invariant.{Inv}
use kkchain.State.Step.{Step, Step-refl, undo_all-append, undo_all_move}
use kkchain.State.Steps.{Call, call, call-Step}
use kkchain.State.Rollback.{
  AllBelow, AllBelow-mono, AllBelow-snoc, find_revision-append, revert_journal-undo,
}

-- A run of calls, snapshots and reverts. A revert goes back to the snapshot that its block took.
pub data Exec {Trie : Type 0} : StateDb Trie → StateDb Trie → Type 0 where
  done : {s : StateDb Trie} → Exec s s
  calls : {s t : StateDb Trie} (c : Call) → Exec (call c s) t → Exec s t
  takes_snapshot : {s t : StateDb Trie} → Exec (snapshot s).0 t → Exec s t
  reverts :
      {s t u v : StateDb Trie}
      → Exec (snapshot s).0 t
      → revert_to_snapshot t (snapshot s).1 ≡ some u
      → Exec u v
      → Exec s v

module _ {Trie : Type 0} where
  -- What a run can have done to the state, with the entries that take it back.
  pub record Trace (s t : StateDb Trie) : Type 0 where
    pub added : List (Entry Trie)
    pub entries : t.journal.entries ≡ added ++ s.journal.entries
    pub dbs : t.db ≡ s.db
    pub tries : t.trie ≡ s.trie
    pub undone : undo_all s.db s.trie added (world t) ≡ some (world s)
    pub inv : Inv t
    pub more : List Revision
    pub revisions : t.valid_revisions ≡ s.valid_revisions ++ more
    pub next_ids : s.next_revision_id ≤ t.next_revision_id
    pub below : AllBelow t.next_revision_id t.valid_revisions

  Step-Trace :
      {s t : StateDb Trie} → AllBelow s.next_revision_id s.valid_revisions → Step s t → Trace s t
  Step-Trace {s} {t} b st = record {
    added = st.added;
    entries = st.entries;
    dbs = st.dbs;
    tries = st.tries;
    undone = st.undone;
    inv = st.inv;
    more = [];
    revisions = st.revisions ∙ sym (append-nil s.valid_revisions);
    next_ids = omega (arith, st.next_ids);
    below = subst₂ AllBelow (sym st.next_ids) (sym st.revisions) b;
  }

  Trace-trans : {s t u : StateDb Trie} → Trace s t → Trace t u → Trace s u
  Trace-trans {s} {t} {u} p q = record {
    added = q.added ++ p.added;
    entries = rw (q.entries, p.entries, append_assoc);
    dbs = q.dbs ∙ p.dbs;
    tries = q.tries ∙ p.tries;
    undone =
        undo_all-append s.db s.trie q.added p.added (world u)
        ∙ rw (undo_all_move q.added (world u) p.dbs p.tries q.undone) p.undone;
    inv = q.inv;
    more = p.more ++ q.more;
    revisions = rw (q.revisions, p.revisions, append_assoc);
    next_ids = omega (arith, p.next_ids, q.next_ids);
    below = q.below;
  }

  world-snapshot : (s : StateDb Trie) → world (snapshot s).0 ≡ world s
  unfolding snapshot world peek
  world-snapshot s = refl

  snapshot-Trace :
      (s : StateDb Trie)
      → Inv s
      → AllBelow s.next_revision_id s.valid_revisions
      → Trace s (snapshot s).0
  unfolding snapshot undo_all
  snapshot-Trace s v b = record {
    added = [];
    entries = refl;
    dbs = refl;
    tries = refl;
    undone = ap some (world-snapshot s);
    inv = record { keyed = v.keyed; cleared = v.cleared; sound = v.sound };
    more = record { id = s.next_revision_id; journal_index = length s.journal.entries } ∷ [];
    revisions = refl;
    next_ids = omega arith;
    below =
        AllBelow-snoc s.valid_revisions _ (AllBelow-mono s.valid_revisions (omega arith) b)
          (omega arith);
  }

  pub record Restored (s u : StateDb Trie) : Type 0 where
    pub worlds : world u ≡ world s
    pub entries : u.journal.entries ≡ s.journal.entries
    pub revisions : u.valid_revisions ≡ s.valid_revisions
    pub inv : Inv u

  world-set_revisions :
      (s : StateDb Trie) (rs : List Revision) → world (record s { valid_revisions = rs }) ≡ world s
  unfolding world peek
  world-set_revisions s rs = refl

  -- A revert after a run from the snapshot.
  revert_back :
      (s t : StateDb Trie)
      → AllBelow s.next_revision_id s.valid_revisions
      → Trace (snapshot s).0 t
      → (u : StateDb Trie) × (revert_to_snapshot t (snapshot s).1 ≡ some u)
        × Restored s u
        × Trace s u
  unfolding revert_to_snapshot snapshot undo_all
  revert_back s t b p =
      let undone : undo_all t.db t.trie p.added (world t) ≡ some (world s) =
        undo_all_move p.added (world t) (sym p.dbs) (sym p.tries)
          (p.undone ∙ ap some (world-snapshot s)) in
      let (j, r, w, e, d, tr, n, v) =
        revert_journal-undo p.added s.journal.entries t (world s) p.inv p.entries undone in
      let u = record j { valid_revisions = s.valid_revisions } in
      let found : find_revision s.next_revision_id t.valid_revisions
          ≡ some (s.valid_revisions, length s.journal.entries) =
        ap (find_revision s.next_revision_id)
          (p.revisions ∙ append_assoc s.valid_revisions _ p.more)
        ∙ find_revision-append s.next_revision_id (length s.journal.entries) s.valid_revisions
            p.more b in
      let world_back = world-set_revisions j s.valid_revisions ∙ w in
      let inv : Inv u = record { keyed = v.keyed; cleared = v.cleared; sound = v.sound } in
      (
        u,
        bind_some _ found (bind_some _ r refl),
        record { worlds = world_back; entries = e; revisions = refl; inv = inv },
        record {
          added = [];
          entries = e;
          dbs = d ∙ p.dbs;
          tries = tr ∙ p.tries;
          undone = ap some world_back;
          inv = inv;
          more = [];
          revisions = sym (append-nil s.valid_revisions);
          next_ids = omega (arith, p.next_ids, n);
          below = AllBelow-mono s.valid_revisions (omega (arith, p.next_ids, n)) b;
        },
      )

  -- Every run can be taken back.
  pub Exec-Trace :
      {s t : StateDb Trie}
      → Exec s t
      → Inv s
      → AllBelow s.next_revision_id s.valid_revisions
      → Trace s t
  Exec-Trace {s} done v b = Step-Trace b (Step-refl s v)
  Exec-Trace {s} (calls c r) v b =
      let first = Step-Trace b (call-Step c s v) in
      Trace-trans first (Exec-Trace r first.inv first.below)
  Exec-Trace {s} (takes_snapshot r) v b =
      let first = snapshot-Trace s v b in Trace-trans first (Exec-Trace r first.inv first.below)
  Exec-Trace {s} (reverts {t = t} {u = u} block e r) v b =
      let first = snapshot-Trace s v b in
      let (u', e', _, back) = revert_back s t b (Exec-Trace block first.inv first.below) in
      let here : Trace s u = subst (Trace s) (some_inj (sym e' ∙ e)) back in
      Trace-trans here (Exec-Trace r here.inv here.below)

  -- From a well-formed state, after any run of calls, snapshots and reverts since a snapshot,
  -- RevertToSnapshot with its id does not panic, and gives back the accounts, the refund counter,
  -- the logs and the preimages, the journal's entries and the older revisions as they were.
  pub revert_to_snapshot-restores :
      (s t : StateDb Trie)
      → Inv s
      → AllBelow s.next_revision_id s.valid_revisions
      → Exec (snapshot s).0 t
      → (u : StateDb Trie) × (revert_to_snapshot t (snapshot s).1 ≡ some u) × Restored s u
  revert_to_snapshot-restores s t v b run =
      let first = snapshot-Trace s v b in
      let (u, e, back, _) = revert_back s t b (Exec-Trace run first.inv first.below) in (u, e, back)
