-- ===== src/State/Methods.antt =====
-- core/state/statedb.go: the methods that read and change accounts, logs, preimages and the
-- refund counter, with the journalled setters of core/state/state_object.go that they call.
use kkchain.Base.{
  ℕ, ◌+◌, ◌%◌, ◌^◌, List, [], ◌∷◌, ◌++◌, Option, none, some, Bool, true, false, if◌then◌else◌, ◌==◌,
  update, ℤ, ◌+ℤ◌, ◌-ℤ◌,
}
use kkchain.State.Types.{Log, StateObject, StateDb}
use kkchain.State.Types.{
  suicide_change, balance_change, nonce_change, storage_change, code_change, refund_change,
  add_log_change, add_preimage_change, touch_change,
}
use kkchain.State.Object.{
  is_zero, big_zero, is_empty, get_state_object_value, set_object_state, object_code,
  set_object_balance, set_object_nonce, set_object_code, mark_suicided,
}
use kkchain.State.Store.{
  ripemd, bump_dirty, log_change, set_state_object, get_state_object, get_or_new_state_object,
}

module _ {Trie : Type 0} where
  -- `stateObject.SetBalance`
  unfoldable pub change_balance : StateDb Trie → StateObject Trie → ℤ → StateDb Trie
  change_balance s o amount =
      set_state_object (log_change s (balance_change o.address o.account.balance))
        (set_object_balance o amount)

  -- `touch`
  unfoldable pub touch : StateDb Trie → StateObject Trie → StateDb Trie
  touch s o =
      let s' = log_change s (touch_change o.address) in
      if o.address == ripemd
      then record s' {
        journal = record (s'.journal) { dirties = bump_dirty s'.journal.dirties o.address };
      }
      else s'

  -- `stateObject.AddBalance`
  unfoldable pub add_object_balance : StateDb Trie → StateObject Trie → ℤ → StateDb Trie
  unfolding touch change_balance
  add_object_balance s o amount =
      if is_zero amount
      then (if is_empty s.db o then touch s o else s)
      else change_balance s o (o.account.balance +ℤ amount)

  -- `stateObject.SubBalance`
  unfoldable pub sub_object_balance : StateDb Trie → StateObject Trie → ℤ → StateDb Trie
  unfolding change_balance
  sub_object_balance s o amount =
      if is_zero amount then s else change_balance s o (o.account.balance -ℤ amount)

  -- `stateObject.SetNonce`
  unfoldable pub change_nonce : StateDb Trie → StateObject Trie → ℕ → StateDb Trie
  change_nonce s o nonce =
      set_state_object (log_change s (nonce_change o.address o.account.nonce))
        (set_object_nonce o nonce)

  -- `stateObject.SetCode`
  unfoldable pub change_code : StateDb Trie → StateObject Trie → ℕ → List ℕ → StateDb Trie
  change_code s o code_hash code =
      let (prevcode, o') = object_code s.db o in
      set_state_object (log_change s (code_change o.address prevcode o'.account.code_hash))
        (set_object_code o' code_hash (some code))

  -- `stateObject.SetState`
  unfoldable pub change_state : StateDb Trie → StateObject Trie → ℕ → ℕ → StateDb Trie
  change_state s o key value =
      let (prevalue, o') = get_state_object_value s.db o key in
      set_state_object (log_change s (storage_change o.address key prevalue))
        (set_object_state o' key value)

  -- `AddBalance`, `SubBalance`, `SetBalance`, `SetNonce`, `SetCode` and `SetState` of the state
  unfoldable pub add_balance : StateDb Trie → ℕ → ℤ → StateDb Trie
  add_balance s a amount =
      let (s', o) = get_or_new_state_object s a in add_object_balance s' o amount

  unfoldable pub sub_balance : StateDb Trie → ℕ → ℤ → StateDb Trie
  sub_balance s a amount =
      let (s', o) = get_or_new_state_object s a in sub_object_balance s' o amount

  unfoldable pub set_balance : StateDb Trie → ℕ → ℤ → StateDb Trie
  set_balance s a amount = let (s', o) = get_or_new_state_object s a in change_balance s' o amount

  unfoldable pub set_nonce : StateDb Trie → ℕ → ℕ → StateDb Trie
  set_nonce s a nonce = let (s', o) = get_or_new_state_object s a in change_nonce s' o nonce

  unfoldable pub set_code : StateDb Trie → ℕ → List ℕ → StateDb Trie
  set_code s a code =
      let (s', o) = get_or_new_state_object s a in change_code s' o (s'.db.keccak code) code

  unfoldable pub set_state : StateDb Trie → ℕ → ℕ → ℕ → StateDb Trie
  set_state s a key value = let (s', o) = get_or_new_state_object s a in change_state s' o key value

  unfoldable pub mark_if_found : StateDb Trie × Option (StateObject Trie) → ℕ → StateDb Trie × Bool
  mark_if_found (s, none) a = (s, false)
  mark_if_found (s, some o) a = (
    set_state_object (log_change s (suicide_change a o.suicided o.account.balance))
        (set_object_balance (mark_suicided o) big_zero),
    true,
  )

  -- `Suicide`
  unfoldable pub suicide : StateDb Trie → ℕ → StateDb Trie × Bool
  unfolding mark_if_found
  suicide s a = mark_if_found (get_state_object s a) a

  -- The fields of a log that `AddLog` fills in
  abbrev pub fill_log : StateDb Trie → List ℕ → Log
  fill_log s payload = record {
    payload = payload;
    tx_hash = s.thash;
    block_hash = s.bhash;
    tx_index = s.tx_index;
    index = s.log_size;
  }

  -- `AddLog`
  unfoldable pub add_log : StateDb Trie → List ℕ → StateDb Trie
  add_log s payload =
      let s' = log_change s (add_log_change s.thash) in
      record s' {
        logs = update s.logs s.thash (s.logs s.thash ++ (fill_log s payload ∷ []));
        log_size = s.log_size + 1;
      }

  -- `AddPreimage`
  unfoldable pub add_preimage : StateDb Trie → ℕ → List ℕ → StateDb Trie
  add_preimage s hash preimage = elim (s.preimages hash) [
    | some _ ↦ s
    | none ↦
        let s' = log_change s (add_preimage_change hash) in
        record s' { preimages = update s.preimages hash (some preimage) }
  ]

  -- `AddRefund`: the counter is a uint64
  unfoldable pub add_refund : StateDb Trie → ℕ → StateDb Trie
  add_refund s gas =
      let s' = log_change s (refund_change s.refund) in
      record s' { refund = (s.refund + gas) % 2 ^ 64 }

  -- `Prepare`
  unfoldable pub prepare : StateDb Trie → ℕ → ℕ → ℕ → StateDb Trie
  prepare s thash bhash ti = record s { thash = thash; bhash = bhash; tx_index = ti }
