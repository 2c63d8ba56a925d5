-- ===== src/State/Getters.antt =====
-- core/state/statedb.go: the methods that read. They load objects, storage values and code into
-- the caches, so each returns the state beside its answer.
use kkchain.Base.{ℕ, List, length, Option, none, some, Bool, true, false, ℤ}
use kkchain.State.Types.{Err, StateObject, StateDb}
use kkchain.State.Object.{big_zero, is_empty, get_state_object_value, object_code}
use kkchain.State.Store.{set_state_object, set_db_error, get_state_object}

module _ {Trie : Type 0} where
  -- What the getters share: an answer for nil, and one for an object.
  abbrev pub answer_from {ℓ} :
      {A : Type ℓ}
      → A
      → (StateObject Trie → A)
      → StateDb Trie × Option (StateObject Trie)
      → StateDb Trie × A
  answer_from d f (s, none) = (s, d)
  answer_from d f (s, some o) = (s, f o)

  -- The same for a getter that fills a cache of the object.
  abbrev pub load_from {ℓ} :
      {A : Type ℓ}
      → A
      → (StateObject Trie → A × StateObject Trie)
      → StateDb Trie × Option (StateObject Trie)
      → StateDb Trie × A
  load_from d f (s, none) = (s, d)
  load_from d f (s, some o) = let (x, o') = f o in (set_state_object s o', x)

  -- `Exist`
  unfoldable pub exist : StateDb Trie → ℕ → StateDb Trie × Bool
  exist s a = answer_from false (λ _. true) (get_state_object s a)

  -- `Empty`
  unfoldable pub empty : StateDb Trie → ℕ → StateDb Trie × Bool
  empty s a = answer_from true (is_empty s.db) (get_state_object s a)

  -- `GetBalance`
  unfoldable pub get_balance : StateDb Trie → ℕ → StateDb Trie × ℤ
  get_balance s a = answer_from big_zero (λ o. o.account.balance) (get_state_object s a)

  -- `GetNonce`
  unfoldable pub get_nonce : StateDb Trie → ℕ → StateDb Trie × ℕ
  get_nonce s a = answer_from 0 (λ o. o.account.nonce) (get_state_object s a)

  -- `GetCodeHash`
  unfoldable pub get_code_hash : StateDb Trie → ℕ → StateDb Trie × ℕ
  get_code_hash s a = answer_from 0 (λ o. o.account.code_hash) (get_state_object s a)

  -- `HasSuicided`
  unfoldable pub has_suicided : StateDb Trie → ℕ → StateDb Trie × Bool
  has_suicided s a = answer_from false (λ o. o.suicided) (get_state_object s a)

  -- `GetCode`
  unfoldable pub get_code : StateDb Trie → ℕ → StateDb Trie × Option (List ℕ)
  get_code s a = load_from none (object_code s.db) (get_state_object s a)

  -- `GetCodeSize`; an error of the database is kept in the state.
  abbrev pub asked_size : StateDb Trie → ℕ × Option Err → StateDb Trie × ℕ
  asked_size s (size, err) = (set_db_error s err, size)

  unfoldable pub size_from : StateDb Trie × Option (StateObject Trie) → StateDb Trie × ℕ
  size_from (s, none) = (s, 0)
  size_from (s, some o) = elim o.code [
    | some c ↦ (s, length c)
    | none ↦ asked_size s (s.db.contract_code_size o.addr_hash o.account.code_hash)
  ]

  unfoldable pub get_code_size : StateDb Trie → ℕ → StateDb Trie × ℕ
  unfolding size_from
  get_code_size s a = size_from (get_state_object s a)

  -- `GetState`
  unfoldable pub get_state : StateDb Trie → ℕ → ℕ → StateDb Trie × ℕ
  get_state s a key = load_from 0 (λ o. get_state_object_value s.db o key) (get_state_object s a)
