-- ===== src/State/Revert.antt =====
-- core/state/journal.go: `revert` of each entry and of the journal; core/state/statedb.go:
-- `Snapshot` and `RevertToSnapshot`. `none` is a panic.
use kkchain.Base.{
  ℕ, zero, suc, ◌+◌, ◌-◌, List, [], ◌∷◌, ◌++◌, Option, none, some, false, if◌then◌else◌, ◌==◌, leb,
  ltb, update, length, drop, drop_last, ◌>>=◌,
}
use kkchain.State.Types.{StateObject, Entry, Revision, StateDb}
use kkchain.State.Types.{
  create_object_change, reset_object_change, suicide_change, balance_change, nonce_change,
  storage_change, code_change, refund_change, add_log_change, add_preimage_change, touch_change,
}
use kkchain.State.Object.{set_object_state, set_object_balance, set_object_nonce, set_object_code}
use kkchain.State.Store.{dirtied, set_state_object, get_state_object}

module _ {Trie : Type 0} where
  -- `s.getStateObject(a).set…(…)`: a nil object is a nil dereference.
  unfoldable pub change_found :
      (StateObject Trie → StateObject Trie)
      → StateDb Trie × Option (StateObject Trie)
      → Option (StateDb Trie)
  change_found f (s, none) = none
  change_found f (s, some o) = some (set_state_object s (f o))

  -- The same under `if obj != nil`.
  unfoldable pub change_if_found :
      (StateObject Trie → StateObject Trie)
      → StateDb Trie × Option (StateObject Trie)
      → Option (StateDb Trie)
  change_if_found f (s, none) = some s
  change_if_found f (s, some o) = some (set_state_object s (f o))

  -- `logs[:len(logs)-1]`, which panics on no logs
  unfoldable pub pop_log : StateDb Trie → ℕ → Option (StateDb Trie)
  pop_log s txhash = elim (s.logs txhash) [
    | [] ↦ none
    | log ∷ more ↦ some (record s {
      logs = update s.logs txhash (drop_last (log ∷ more));
      log_size = s.log_size - 1;
    })
  ]

  -- `revert` of the eleven kinds of entry
  unfoldable pub revert_entry : Entry Trie → StateDb Trie → Option (StateDb Trie)
  unfolding change_found change_if_found pop_log
  revert_entry (create_object_change a) s = some (record s {
    state_objects = update s.state_objects a none;
    state_objects_dirty = update s.state_objects_dirty a false;
  })
  revert_entry (reset_object_change prev) s = some (set_state_object s prev)
  revert_entry (suicide_change a prev balance) s =
      change_if_found (λ o. set_object_balance (record o { suicided = prev }) balance)
        (get_state_object s a)
  revert_entry (balance_change a prev) s =
      change_found (λ o. set_object_balance o prev) (get_state_object s a)
  revert_entry (nonce_change a prev) s =
      change_found (λ o. set_object_nonce o prev) (get_state_object s a)
  revert_entry (storage_change a key prevalue) s =
      change_found (λ o. set_object_state o key prevalue) (get_state_object s a)
  revert_entry (code_change a prevcode prevhash) s =
      change_found (λ o. set_object_code o prevhash prevcode) (get_state_object s a)
  revert_entry (refund_change prev) s = some (record s { refund = prev })
  revert_entry (add_log_change txhash) s = pop_log s txhash
  revert_entry (add_preimage_change hash) s =
      some (record s { preimages = update s.preimages hash none })
  revert_entry (touch_change a) s = some s

  -- `j.dirties[*addr]--`, with the key deleted at 0
  abbrev pub drop_dirty : Entry Trie → StateDb Trie → StateDb Trie
  drop_dirty e s = record s {
    journal = record (s.journal) {
      dirties = elim (dirtied e) [
        | none ↦ s.journal.dirties
        | some a ↦ update s.journal.dirties a (s.journal.dirties a - 1)
      ];
    };
  }

  -- The loop of `revert`: so many rounds, from the newest entry on.
  unfoldable pub revert_rounds : ℕ → List (Entry Trie) → StateDb Trie → Option (StateDb Trie)
  revert_rounds zero es s = some s
  revert_rounds (suc n) [] s = none
  revert_rounds (suc n) (e ∷ es) s = revert_entry e s >>= λ s'. revert_rounds n es (drop_dirty e s')

  abbrev pub cut_entries : ℕ → StateDb Trie → StateDb Trie
  cut_entries n s = record s { journal = record (s.journal) { entries = drop n s.journal.entries } }

  -- `journal.revert`
  unfoldable pub revert_journal : StateDb Trie → ℕ → Option (StateDb Trie)
  revert_journal s snapshot =
      let n = length s.journal.entries - snapshot in
      if ltb (length s.journal.entries) snapshot
      then none
      else (revert_rounds n s.journal.entries s >>= λ s'. some (cut_entries n s'))

  -- `Snapshot`
  unfoldable pub snapshot : StateDb Trie → StateDb Trie × ℕ
  snapshot s =
      let id = s.next_revision_id in
      (
        record s {
          next_revision_id = id + 1;
          valid_revisions =
              s.valid_revisions
              ++ (record { id = id; journal_index = length s.journal.entries } ∷ []);
        },
        id,
      )

-- `sort.Search` for the first revision whose id is not below `revid`: the revisions before it and
-- its journal index, if its id is `revid`.
unfoldable pub find_revision : ℕ → List Revision → Option (List Revision × ℕ)
find_revision revid [] = none
find_revision revid (r ∷ rs) =
    let rest = find_revision revid rs in
    if leb revid r.id
    then (if r.id == revid then some ([], r.journal_index) else none)
    else (rest >>= λ (before, index). some (r ∷ before, index))

module _ {Trie : Type 0} where
  -- `RevertToSnapshot`
  unfoldable pub revert_to_snapshot : StateDb Trie → ℕ → Option (StateDb Trie)
  revert_to_snapshot s revid = find_revision revid s.valid_revisions >>= λ (before, index).
      revert_journal s index >>= λ s'. some (record s' { valid_revisions = before })
