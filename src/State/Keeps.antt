-- ===== src/State/Keeps.antt =====
-- `revert` of a journal entry of core/state and the invariant.
use kkchain.Base.{ℕ, Option, none, some, ◌≡◌, refl, from_some, ◌∙◌, arith}
use kkchain.State.Types.{
  StateObject, Entry, StateDb, create_object_change, reset_object_change, suicide_change,
  balance_change, nonce_change, storage_change, code_change, refund_change, add_log_change,
  add_preimage_change, touch_change,
}
use kkchain.State.Object.{set_object_state, set_object_balance, set_object_nonce, set_object_code}
use kkchain.State.Store.{set_state_object, get_state_object}
use kkchain.State.Revert.{change_found, change_if_found, pop_log, revert_entry}
use kkchain.State.Reads.{Found, get_state_object-Found}
use kkchain.State.Undo.{Found-some}
use kkchain.State.Invariant.{Inv, IsSound, Frame, Found-Frame, Found-Inv, set_state_object-Inv}

module _ {Trie : Type 0} where
  module _ (f : StateObject Trie → StateObject Trie)
      (lives : (o : StateObject Trie) → (f o).deleted ≡ o.deleted) (s : StateDb Trie) (a : ℕ)
      (v : Inv s) where
    write_keeps :
        {s' : StateDb Trie} {r : Option (StateObject Trie)} (o : StateObject Trie)
        → Found s a s' r
        → r ≡ some o
        → Frame s (set_state_object s' (f o)) × Inv (set_state_object s' (f o))
    write_keeps o found h =
        let frame = Found-Frame found in
        (
          record {
            dbs = frame.dbs;
            tries = frame.tries;
            journals = frame.journals;
            revisions = frame.revisions;
            next_ids = frame.next_ids;
          },
          set_state_object-Inv (f o) (Found-Inv found v) (lives o ∙ (Found-some o found v h).alive),
        )

    change_found_keeps :
        (t : StateDb Trie) → change_found f (get_state_object s a) ≡ some t → Frame s t × Inv t
    unfolding change_found
    change_found_keeps t e =
        go (get_state_object s a).0 (get_state_object s a).1 (get_state_object-Found s a) e
      where
        go :
            (s' : StateDb Trie) (r : Option (StateObject Trie))
            → Found s a s' r
            → change_found f (s', r) ≡ some t
            → Frame s t × Inv t
        go s' none found h = cc
        go s' (some o) found h = from_some (λ x. Frame s x × Inv x) _ t h (write_keeps o found refl)

    change_if_found_keeps :
        (t : StateDb Trie) → change_if_found f (get_state_object s a) ≡ some t → Frame s t × Inv t
    unfolding change_if_found
    change_if_found_keeps t e =
        go (get_state_object s a).0 (get_state_object s a).1 (get_state_object-Found s a) e
      where
        go :
            (s' : StateDb Trie) (r : Option (StateObject Trie))
            → Found s a s' r
            → change_if_found f (s', r) ≡ some t
            → Frame s t × Inv t
        go s' none found h =
            from_some (λ x. Frame s x × Inv x) _ t h (Found-Frame found, Found-Inv found v)
        go s' (some o) found h = from_some (λ x. Frame s x × Inv x) _ t h (write_keeps o found refl)

  -- Taking back an entry keeps the invariant, and leaves the journal and the revisions alone.
  pub revert_entry_keeps :
      (e : Entry Trie) (s t : StateDb Trie)
      → Inv s
      → IsSound e
      → revert_entry e s ≡ some t
      → Frame s t × Inv t
  unfolding revert_entry
  revert_entry_keeps (create_object_change a) s t v k h =
      from_some (λ x. Frame s x × Inv x) _ t h
        (
          record { dbs = refl; tries = refl; journals = refl; revisions = refl; next_ids = refl },
          record {
            keyed = λ b o e. ground (arith, v.keyed b o);
            cleared = λ b o e d. ground (arith, v.cleared b o);
            sound = v.sound;
          },
        )
  revert_entry_keeps (reset_object_change prev) s t v k h =
      from_some (λ x. Frame s x × Inv x) _ t h
        (
          record { dbs = refl; tries = refl; journals = refl; revisions = refl; next_ids = refl },
          set_state_object-Inv prev v k,
        )
  revert_entry_keeps (suicide_change a prev balance) s t v k h =
      change_if_found_keeps (λ o. set_object_balance (record o { suicided = prev }) balance)
        (λ o. refl) s a v t h
  revert_entry_keeps (balance_change a prev) s t v k h =
      change_found_keeps (λ o. set_object_balance o prev) (λ o. refl) s a v t h
  revert_entry_keeps (nonce_change a prev) s t v k h =
      change_found_keeps (λ o. set_object_nonce o prev) (λ o. refl) s a v t h
  revert_entry_keeps (storage_change a key prev) s t v k h =
      change_found_keeps (λ o. set_object_state o key prev) (λ o. refl) s a v t h
  revert_entry_keeps (code_change a prevcode prevhash) s t v k h =
      change_found_keeps (λ o. set_object_code o prevhash prevcode) (λ o. refl) s a v t h
  revert_entry_keeps (refund_change prev) s t v k h = ground arith
  revert_entry_keeps (add_log_change txhash) s t v k h = unfold pop_log in ground arith
  revert_entry_keeps (add_preimage_change hash) s t v k h = ground arith
  revert_entry_keeps (touch_change a) s t v k h = ground arith
