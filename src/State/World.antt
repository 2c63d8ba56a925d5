-- ===== src/State/World.antt =====
-- What callers can observe of a StateDB: the accounts, whether cached or still in the trie, the
-- refund counter, the logs and the preimages; and what undoing a journal entry means there.
use kkchain.Base.{
  ℕ, ◌-◌, List, [], ◌∷◌, Option, none, some, Bool, if◌then◌else◌, ◌==◌, update, drop_last, ◌>>=◌, ℤ,
}
use kkchain.State.Types.{
  AccountData, Backend, StateObject, Entry, Log, StateDb, create_object_change, reset_object_change,
  suicide_change, balance_change, nonce_change, storage_change, code_change, refund_change,
  add_log_change, add_preimage_change, touch_change,
}
use kkchain.State.Object.{empty_code_hash, new_object, get_state_object_value, object_code}

pub record AccountView : Type 0 where
  pub addr_hash : ℕ
  pub nonce : ℕ
  pub balance : ℤ
  pub code_hash : ℕ
  pub code : Option (List ℕ)
  pub storage : ℕ → ℕ
  pub suicided : Bool

pub record World : Type 0 where
  pub accounts : ℕ → Option AccountView
  pub refund : ℕ
  pub logs : ℕ → List Log
  pub log_size : ℕ
  pub preimages : ℕ → Option (List ℕ)

abbrev pub set_account : World → ℕ → Option AccountView → World
set_account w a v = record w { accounts = update w.accounts a v }

-- Change a present account; a missing one is a nil dereference.
abbrev pub must_change : (AccountView → AccountView) → World → ℕ → Option World
must_change f w a = elim (w.accounts a) [
  | none ↦ none
  | some v ↦ some (set_account w a (some (f v)))
]

abbrev pub may_change : (AccountView → AccountView) → World → ℕ → Option World
may_change f w a = elim (w.accounts a) [
  | none ↦ some w
  | some v ↦ some (set_account w a (some (f v)))
]

module _ {Trie : Type 0} where
  unfoldable pub view_object : Backend Trie → StateObject Trie → AccountView
  view_object db o = record {
    addr_hash = o.addr_hash;
    nonce = o.account.nonce;
    balance = o.account.balance;
    code_hash = o.account.code_hash;
    code = (object_code db o).0;
    storage = λ key. (get_state_object_value db o key).0;
    suicided = o.suicided;
  }

  abbrev pub decode : Backend Trie → List ℕ → Option AccountData
  decode db [] = none
  decode db (b ∷ enc) = db.decode_account (b ∷ enc)

  -- The account as the trie holds it.
  unfoldable pub stored_object : Backend Trie → Trie → ℕ → Option (StateObject Trie)
  stored_object db t a = decode db (db.try_get t a).0 >>= λ d. some (new_object db a d)

  abbrev pub visible : StateObject Trie → Option (StateObject Trie)
  visible o = if o.deleted then none else some o

  unfoldable pub peek : StateDb Trie → ℕ → Option (StateObject Trie)
  peek s a = elim (s.state_objects a) [ none ↦ stored_object s.db s.trie a | some o ↦ visible o ]

  abbrev pub view_option : Backend Trie → Option (StateObject Trie) → Option AccountView
  view_option db r = r >>= λ o. some (view_object db o)

  unfoldable pub world : StateDb Trie → World
  world s = record {
    accounts = λ a. view_option s.db (peek s a);
    refund = s.refund;
    logs = s.logs;
    log_size = s.log_size;
    preimages = s.preimages;
  }

  -- The code that an account without a cached copy is read with.
  abbrev pub code_at : Backend Trie → ℕ → ℕ → Option (List ℕ) → Option (List ℕ)
  code_at db addr_hash code_hash (some c) = some c
  code_at db addr_hash code_hash none =
      if code_hash == empty_code_hash db then none else (db.contract_code addr_hash code_hash).0

  unfoldable pub undo : Backend Trie → Trie → Entry Trie → World → Option World
  undo db t (create_object_change a) w =
      some (set_account w a (view_option db (stored_object db t a)))
  undo db t (reset_object_change prev) w =
      some (set_account w prev.address (view_option db (visible prev)))
  undo db t (suicide_change a prev balance) w =
      may_change (λ v. record v { balance = balance; suicided = prev }) w a
  undo db t (balance_change a prev) w = must_change (λ v. record v { balance = prev }) w a
  undo db t (nonce_change a prev) w = must_change (λ v. record v { nonce = prev }) w a
  undo db t (storage_change a key prev) w =
      must_change (λ v. record v { storage = update v.storage key prev }) w a
  undo db t (code_change a prevcode prevhash) w =
      must_change
        (λ v. record v { code_hash = prevhash; code = code_at db v.addr_hash prevhash prevcode }) w
        a
  undo db t (refund_change prev) w = some (record w { refund = prev })
  undo db t (add_log_change txhash) w = elim (w.logs txhash) [
    | [] ↦ none
    | log ∷ more ↦ some (record w {
      logs = update w.logs txhash (drop_last (log ∷ more));
      log_size = w.log_size - 1;
    })
  ]
  undo db t (add_preimage_change hash) w =
      some (record w { preimages = update w.preimages hash none })
  undo db t (touch_change a) w = some w

  unfoldable pub undo_all : Backend Trie → Trie → List (Entry Trie) → World → Option World
  undo_all db t [] w = some w
  undo_all db t (e ∷ es) w = undo db t e w >>= undo_all db t es
