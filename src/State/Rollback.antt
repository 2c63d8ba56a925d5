-- ===== src/State/Rollback.antt =====
-- `journal.revert` over the newest entries, and the search for a revision.
use kkchain.Base.{
  ℕ, ◌-◌, ◌<◌, ◌≤◌, List, [], ◌∷◌, ◌++◌, some, false, ltb, length, length-append, drop, >>=-eq-some,
  some_inj, bind_some, ◌≡◌, refl, ap, sym, subst, ◌∙◌, arith,
}
use kkchain.State.Types.{Entry, Revision, StateDb, Journal}
use kkchain.State.Revert.{
  revert_entry, drop_dirty, revert_rounds, cut_entries, revert_journal, find_revision,
}
use kkchain.State.World.{World, peek, world, undo, undo_all}
use kkchain.State.Undo.{world-revert_entry}
use kkchain.State.Keeps.{revert_entry_keeps}
use kkchain.State.Invariant.{Inv, AllSound, Frame}
use kkchain.State.Step.{undo_all_move}

-- The ids of the snapshots that can be reverted to were all given out.
abbrev pub AllBelow : ℕ → List Revision → Type 0
AllBelow n [] = Unit {0}
AllBelow n (r ∷ rs) = (r.id < n) × AllBelow n rs

pub AllBelow-mono : {m n : ℕ} (rs : List Revision) → m ≤ n → AllBelow m rs → AllBelow n rs
AllBelow-mono [] h b = tt
AllBelow-mono (r ∷ rs) h b = (omega arith, AllBelow-mono rs h b.1)

pub AllBelow-snoc :
    {n : ℕ} (rs : List Revision) (r : Revision)
    → AllBelow n rs
    → r.id < n
    → AllBelow n (rs ++ (r ∷ []))
AllBelow-snoc [] r b h = (h, tt)
AllBelow-snoc (x ∷ rs) r b h = (b.0, AllBelow-snoc rs r b.1 h)

-- The search finds the first revision with an id that none before it reaches.
pub find_revision-append :
    (id index : ℕ) (rs more : List Revision)
    → AllBelow id rs
    → find_revision id (rs ++ (record { id = id; journal_index = index } ∷ more)) ≡ some (rs, index)
unfolding find_revision
find_revision-append id index [] more b = ground arith
find_revision-append id index (r ∷ rs) more b =
    ground (arith, find_revision-append id index rs more b.1)

module _ {Trie : Type 0} where
  -- What a revert leaves beside the world.
  pub record Reverted (s t : StateDb Trie) : Type 0 where
    pub dbs : t.db ≡ s.db
    pub tries : t.trie ≡ s.trie
    pub entries : t.journal.entries ≡ s.journal.entries
    pub revisions : t.valid_revisions ≡ s.valid_revisions
    pub next_ids : t.next_revision_id ≡ s.next_revision_id
    pub inv : Inv t

  drop_dirty-Reverted :
      (e : Entry Trie) (s t : StateDb Trie)
      → Frame s t
      → Inv t
      → Reverted s (drop_dirty e t) × (world (drop_dirty e t) ≡ world t)
  unfolding world peek
  drop_dirty-Reverted e s t f v = (
    record {
      dbs = f.dbs;
      tries = f.tries;
      entries = ap (λ (j : Journal Trie). j.entries) f.journals;
      revisions = f.revisions;
      next_ids = f.next_ids;
      inv = record { keyed = v.keyed; cleared = v.cleared; sound = v.sound };
    },
    refl,
  )

  Reverted-trans : {s t u : StateDb Trie} → Reverted s t → Reverted t u → Reverted s u
  Reverted-trans p q = record {
    dbs = q.dbs ∙ p.dbs;
    tries = q.tries ∙ p.tries;
    entries = q.entries ∙ p.entries;
    revisions = q.revisions ∙ p.revisions;
    next_ids = q.next_ids ∙ p.next_ids;
    inv = q.inv;
  }

  revert_rounds-undo :
      (es rest : List (Entry Trie)) (s : StateDb Trie) (w : World)
      → Inv s
      → AllSound es
      → undo_all s.db s.trie es (world s) ≡ some w
      → (t : StateDb Trie) × (revert_rounds (length es) (es ++ rest) s ≡ some t)
        × (world t ≡ w)
        × Reverted s t
  unfolding revert_rounds undo_all
  revert_rounds-undo [] rest s w v k h = (
    s,
    refl,
    some_inj h,
    record { dbs = refl; tries = refl; entries = refl; revisions = refl; next_ids = refl; inv = v },
  )
  revert_rounds-undo (e ∷ es) rest s w v k h =
      let (w1, h1, h2) = >>=-eq-some (undo s.db s.trie e (world s)) (undo_all s.db s.trie es) h in
      let (s1, r1, p1) =
        >>=-eq-some (revert_entry e s) (λ t. some (world t)) (world-revert_entry e s v ∙ h1) in
      let (f, v1) = revert_entry_keeps e s s1 v k.0 r1 in
      let (g, same) = drop_dirty-Reverted e s s1 f v1 in
      let (t, r2, p2, last) = revert_rounds-undo es rest (drop_dirty e s1) w g.inv k.1 (
        undo_all_move es (world (drop_dirty e s1)) (sym g.dbs) (sym g.tries)
          (rw (same ∙ some_inj p1) h2)) in
      (
        t,
        bind_some (λ s'. revert_rounds (length es) (es ++ rest) (drop_dirty e s')) r1 r2,
        p2,
        Reverted-trans g last,
      )

  AllSound-append : (es fs : List (Entry Trie)) → AllSound (es ++ fs) → AllSound es × AllSound fs
  AllSound-append [] fs k = (tt, k)
  AllSound-append (e ∷ es) fs k = let (a, b) = AllSound-append es fs k.1 in ((k.0, a), b)

  drop-append : (es fs : List (Entry Trie)) → drop (length es) (es ++ fs) ≡ fs
  drop-append [] fs = refl
  drop-append (e ∷ es) fs = drop-append es fs

  revert_journal-some :
      (s t : StateDb Trie) (index n : ℕ)
      → ltb (length s.journal.entries) index ≡ false
      → length s.journal.entries - index ≡ n
      → revert_rounds n s.journal.entries s ≡ some t
      → revert_journal s index ≡ some (cut_entries n t)
  unfolding revert_journal
  revert_journal-some s t index n k e r =
      rw (k, e) (bind_some (λ s'. some (cut_entries n s')) r refl)

  -- `journal.revert` down to a length takes back the entries above it.
  pub revert_journal-undo :
      (es rest : List (Entry Trie)) (s : StateDb Trie) (w : World)
      → Inv s
      → s.journal.entries ≡ es ++ rest
      → undo_all s.db s.trie es (world s) ≡ some w
      → (t : StateDb Trie) × (revert_journal s (length rest) ≡ some t)
        × (world t ≡ w)
        × (t.journal.entries ≡ rest)
        × (t.db ≡ s.db)
        × (t.trie ≡ s.trie)
        × (t.next_revision_id ≡ s.next_revision_id)
        × Inv t
  revert_journal-undo es rest s w v e h =
      let sound = AllSound-append es rest (rw e at v.sound) in
      let (t, r, p, last) = revert_rounds-undo es rest s w v sound.0 h in
      let n = ap length e ∙ length-append es rest in
      let kept : drop (length es) t.journal.entries ≡ rest =
        ap (drop (length es)) (last.entries ∙ e) ∙ drop-append es rest in
      (
        cut_entries (length es) t,
        revert_journal-some s t (length rest) (length es) (ground (arith, n)) (omega (arith, n))
            (subst (λ l. revert_rounds (length es) l s ≡ some t) (sym e) r),
        unfold world peek in p,
        kept,
        last.dbs,
        last.tries,
        last.next_ids,
        record {
          keyed = last.inv.keyed;
          cleared = last.inv.cleared;
          sound = subst AllSound (sym kept) sound.1;
        },
      )
