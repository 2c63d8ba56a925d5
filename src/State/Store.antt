-- ===== src/State/Store.antt =====
-- core/state/statedb.go: finding, loading and creating state objects; core/state/journal.go:
-- `append` and `dirty`. A method that may load an object returns the state beside its result.
use kkchain.Base.{ℕ, ◌+◌, List, [], ◌∷◌, Option, none, some, if◌then◌else◌, update}
use kkchain.State.Types.{Err, AccountData, StateObject, Entry, Journal, StateDb}
use kkchain.State.Types.{
  create_object_change, reset_object_change, suicide_change, balance_change, nonce_change,
  storage_change, code_change, refund_change, add_log_change, add_preimage_change, touch_change,
}
use kkchain.State.Object.{first_error, new_object, set_object_nonce, set_object_balance}

-- `ripemd`, the address 0x03
abbrev pub ripemd : ℕ
ripemd = 3

-- `Account{}`
abbrev pub no_account : AccountData
no_account = record { nonce = 0; balance = none; root = 0; code_hash = none }

-- `dirty`
abbrev pub bump_dirty : (ℕ → ℕ) → ℕ → ℕ → ℕ
bump_dirty dirties a = update dirties a (dirties a + 1)

module _ {Trie : Type 0} where
  -- `dirtied`
  abbrev pub dirtied : Entry Trie → Option ℕ
  dirtied (create_object_change a) = some a
  dirtied (reset_object_change prev) = none
  dirtied (suicide_change a prev balance) = some a
  dirtied (balance_change a prev) = some a
  dirtied (nonce_change a prev) = some a
  dirtied (storage_change a key prev) = some a
  dirtied (code_change a code hash) = some a
  dirtied (refund_change prev) = none
  dirtied (add_log_change txhash) = none
  dirtied (add_preimage_change hash) = none
  dirtied (touch_change a) = some a

  -- `append`
  abbrev pub append_entry : Journal Trie → Entry Trie → Journal Trie
  append_entry j e = record {
    entries = e ∷ j.entries;
    dirties = elim (dirtied e) [ none ↦ j.dirties | some a ↦ bump_dirty j.dirties a ];
  }

  abbrev pub log_change : StateDb Trie → Entry Trie → StateDb Trie
  log_change s e = record s { journal = append_entry s.journal e }

  -- `setError`
  abbrev pub set_db_error : StateDb Trie → Option Err → StateDb Trie
  set_db_error s e = record s { db_err = first_error s.db_err e }

  -- `setStateObject`, and every write through a pointer to a live object
  abbrev pub set_state_object : StateDb Trie → StateObject Trie → StateDb Trie
  set_state_object s o = record s { state_objects = update s.state_objects o.address (some o) }

  -- The end of `getStateObject`, on the decoded account.
  install : StateDb Trie → ℕ → Option AccountData → StateDb Trie × Option (StateObject Trie)
  install s a none = (s, none)
  install s a (some d) = let o = new_object s.db a d in (set_state_object s o, some o)

  -- The rest of `getStateObject`, on the answer of the account trie.
  load_object : StateDb Trie → ℕ → List ℕ × Option Err → StateDb Trie × Option (StateObject Trie)
  unfolding install
  load_object s a ([], err) = (set_db_error s err, none)
  load_object s a (b ∷ enc, err) = install s a (s.db.decode_account (b ∷ enc))

  live_object :
      StateDb Trie → ℕ → Option (StateObject Trie) → StateDb Trie × Option (StateObject Trie)
  unfolding load_object
  live_object s a none = load_object s a (s.db.try_get s.trie a)
  live_object s a (some o) = if o.deleted then (s, none) else (s, some o)

  -- `getStateObject`
  unfoldable pub get_state_object : StateDb Trie → ℕ → StateDb Trie × Option (StateObject Trie)
  unfolding live_object
  get_state_object s a = live_object s a (s.state_objects a)

  -- The end of `createObject`, on the previous object.
  unfoldable pub replace_object :
      StateDb Trie → ℕ → Option (StateObject Trie) → StateDb Trie × StateObject Trie
  replace_object s a none =
      let o = set_object_nonce (new_object s.db a no_account) 0 in
      (set_state_object (log_change s (create_object_change a)) o, o)
  replace_object s a (some prev) =
      let o = set_object_nonce (new_object s.db a no_account) 0 in
      (set_state_object (log_change s (reset_object_change prev)) o, o)

  -- `createObject`: the state, the new object and the previous one
  unfoldable pub create_object :
      StateDb Trie → ℕ → StateDb Trie × StateObject Trie × Option (StateObject Trie)
  unfolding replace_object
  create_object s a =
      let (s1, prev) = get_state_object s a in
      let (s2, o) = replace_object s1 a prev in (s2, o, prev)

  unfoldable pub new_if_missing :
      StateDb Trie × Option (StateObject Trie) → ℕ → StateDb Trie × StateObject Trie
  new_if_missing (s, none) a = let (s', o, _) = create_object s a in (s', o)
  new_if_missing (s, some o) a =
      if o.deleted then (let (s', o', _) = create_object s a in (s', o')) else (s, o)

  -- `GetOrNewStateObject`
  unfoldable pub get_or_new_state_object : StateDb Trie → ℕ → StateDb Trie × StateObject Trie
  unfolding new_if_missing
  get_or_new_state_object s a = new_if_missing (get_state_object s a) a

  unfoldable pub carry_balance :
      StateDb Trie × StateObject Trie × Option (StateObject Trie) → StateDb Trie
  carry_balance (s, o, none) = s
  carry_balance (s, o, some prev) = set_state_object s (set_object_balance o prev.account.balance)

  -- `CreateAccount`
  unfoldable pub create_account : StateDb Trie → ℕ → StateDb Trie
  unfolding carry_balance
  create_account s a = carry_balance (create_object s a)
