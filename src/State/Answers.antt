-- ===== src/State/Answers.antt =====
-- The getters of core/state/statedb.go and the world of the state.
use kkchain.Base.{ℕ, Option, none, some, true, false, ◌≡◌, refl}
use kkchain.State.Types.{StateObject, StateDb}
use kkchain.State.Object.{big_zero, get_state_object_value, object_code}
use kkchain.State.Store.{get_state_object}
use kkchain.State.Getters.{
  answer_from, load_from, exist, get_balance, get_nonce, get_code_hash, has_suicided, get_code,
  get_state,
}
use kkchain.State.World.{AccountView, view_object, world}
use kkchain.State.Reads.{Found, get_state_object-Found}
use kkchain.State.Undo.{Found-none, Found-some}
use kkchain.State.Invariant.{Inv}

-- A field of an account, or its default where there is no account.
abbrev pub field {ℓ} : {A : Type ℓ} → A → (AccountView → A) → Option AccountView → A
field d f none = d
field d f (some v) = f v

module _ {Trie : Type 0} (s : StateDb Trie) (a : ℕ) (v : Inv s) where
  answer_lem :
      {A : Type 0} (d : A) (f : StateObject Trie → A) (g : AccountView → A)
      → ((o : StateObject Trie) → f o ≡ g (view_object s.db o))
      → (answer_from d f (get_state_object s a)).1 ≡ field d g ((world s).accounts a)
  answer_lem {A} d f g h =
      go (get_state_object s a).0 (get_state_object s a).1 (get_state_object-Found s a)
    where
      go :
          (s' : StateDb Trie) (r : Option (StateObject Trie))
          → Found s a s' r
          → (answer_from d f (s', r)).1 ≡ field d g ((world s).accounts a)
      go s' none found = rw ((Found-none found refl).1, field)
      go s' (some o) found = rw ((Found-some o found v refl).shown, field) (h o)

  load_lem :
      {A : Type 0} (d : A) (f : StateObject Trie → A × StateObject Trie) (g : AccountView → A)
      → ((o : StateObject Trie) → (f o).0 ≡ g (view_object s.db o))
      → (load_from d f (get_state_object s a)).1 ≡ field d g ((world s).accounts a)
  load_lem {A} d f g h =
      go (get_state_object s a).0 (get_state_object s a).1 (get_state_object-Found s a)
    where
      go :
          (s' : StateDb Trie) (r : Option (StateObject Trie))
          → Found s a s' r
          → (load_from d f (s', r)).1 ≡ field d g ((world s).accounts a)
      go s' none found = rw ((Found-none found refl).1, field)
      go s' (some o) found = rw ((Found-some o found v refl).shown, field) (h o)

  -- Each getter answers the field of the account in the world of the state, and 0, nil or false for
  -- an address without an account.
  pub getters_answer :
      ((get_balance s a).1 ≡ field big_zero (λ w. w.balance) ((world s).accounts a))
      × ((get_nonce s a).1 ≡ field 0 (λ w. w.nonce) ((world s).accounts a))
      × ((get_code_hash s a).1 ≡ field 0 (λ w. w.code_hash) ((world s).accounts a))
      × ((has_suicided s a).1 ≡ field false (λ w. w.suicided) ((world s).accounts a))
      × ((exist s a).1 ≡ field false (λ w. true) ((world s).accounts a))
      × ((get_code s a).1 ≡ field none (λ w. w.code) ((world s).accounts a))
      × ((key : ℕ) → (get_state s a key).1 ≡ field 0 (λ w. w.storage key) ((world s).accounts a))
  unfolding get_balance get_nonce get_code_hash has_suicided exist get_code get_state view_object
  getters_answer = (
    answer_lem big_zero (λ o. o.account.balance) (λ w. w.balance) (λ o. refl),
    answer_lem 0 (λ o. o.account.nonce) (λ w. w.nonce) (λ o. refl),
    answer_lem 0 (λ o. o.account.code_hash) (λ w. w.code_hash) (λ o. refl),
    answer_lem false (λ o. o.suicided) (λ w. w.suicided) (λ o. refl),
    answer_lem false (λ o. true) (λ w. true) (λ o. refl),
    load_lem none (object_code s.db) (λ w. w.code) (λ o. refl),
    λ key. load_lem 0 (λ o. get_state_object_value s.db o key) (λ w. w.storage key) (λ o. refl),
  )
