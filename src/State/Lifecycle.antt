-- ===== src/State/Lifecycle.antt =====
-- core/state/statedb.go: `New`, `Reset` and `clearJournalAndRefund`.
use kkchain.Base.{ℕ, [], Option, none, some, false}
use kkchain.State.Types.{OpenResult, opened, failed, Backend, Journal, StateDb}
use kkchain.State.Invariant.{Inv}

module _ {Trie : Type 0} where
  abbrev no_journal : Journal Trie
  no_journal = record { entries = []; dirties = λ _. 0 }

  -- `clearJournalAndRefund`
  unfoldable pub clear_journal_and_refund : StateDb Trie → StateDb Trie
  clear_journal_and_refund s = record s { journal = no_journal; valid_revisions = []; refund = 0 }

  -- A state over an open trie, as `New` returns it.
  unfoldable pub fresh_state : Backend Trie → Trie → StateDb Trie
  fresh_state db t = record {
    db = db;
    trie = t;
    state_objects = λ _. none;
    state_objects_dirty = λ _. false;
    db_err = none;
    refund = 0;
    thash = 0;
    bhash = 0;
    tx_index = 0;
    logs = λ _. [];
    log_size = 0;
    preimages = λ _. none;
    journal = no_journal;
    valid_revisions = [];
    next_revision_id = 0;
  }

  new_from : Backend Trie → OpenResult Trie → Option (StateDb Trie)
  new_from db (opened t) = some (fresh_state db t)
  new_from db (failed e) = none

  -- `New`; `none` is the error of `OpenTrie`.
  unfoldable pub new_state : Backend Trie → ℕ → Option (StateDb Trie)
  unfolding new_from
  new_state db root = new_from db (db.open_trie root)

  reset_from : StateDb Trie → OpenResult Trie → Option (StateDb Trie)
  unfolding clear_journal_and_refund
  reset_from s (opened t) = some (
      clear_journal_and_refund (record s {
        trie = t;
        state_objects = λ _. none;
        state_objects_dirty = λ _. false;
        thash = 0;
        bhash = 0;
        tx_index = 0;
        logs = λ _. [];
        log_size = 0;
        preimages = λ _. none;
      }))
  reset_from s (failed e) = none

  -- `Reset`
  unfoldable pub reset : StateDb Trie → ℕ → Option (StateDb Trie)
  unfolding reset_from
  reset s root = reset_from s (s.db.open_trie root)

  pub fresh_state-Inv : (db : Backend Trie) (t : Trie) → Inv (fresh_state db t)
  unfolding fresh_state
  fresh_state-Inv db t = record { keyed = λ a o h. cc; cleared = λ a o h d. cc; sound = tt }
