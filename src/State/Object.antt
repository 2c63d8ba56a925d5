-- ===== src/State/Object.antt =====
-- The parts of core/state/state_object.go that touch the object alone: construction, lazy reads
-- of the storage trie and the code, and the setters without a journal entry.
use kkchain.Base.{
  ℕ, List, [], ◌∷◌, Option, none, some, Bool, true, false, ◌&&◌, ◌==◌, if◌then◌else◌, ℤ, pos,
  update,
}
use kkchain.State.Types.{Err, AccountData, OpenResult, opened, failed, Backend, StateObject}

-- `setError` of both types: the first error stays, and a nil error changes nothing.
abbrev pub first_error : Option Err → Option Err → Option Err
first_error none e = e
first_error (some d) e = some d

abbrev pub or_default {ℓ} : {A : Type ℓ} → A → Option A → A
or_default d none = d
or_default d (some a) = a

abbrev pub is_zero : ℤ → Bool
is_zero (pos n) = n == 0
is_zero _ = false

-- `big.Int`'s zero, `new(big.Int)`
abbrev pub big_zero : ℤ
big_zero = pos 0

module _ {Trie : Type 0} where
  -- `emptyCodeHash`
  abbrev pub empty_code_hash : Backend Trie → ℕ
  empty_code_hash db = db.keccak []

  abbrev pub new_object : Backend Trie → ℕ → AccountData → StateObject Trie
  new_object db address d = record {
    address = address;
    addr_hash = db.address_hash address;
    account = record {
      nonce = d.nonce;
      balance = or_default big_zero d.balance;
      root = d.root;
      code_hash = or_default (empty_code_hash db) d.code_hash;
    };
    db_err = none;
    trie = none;
    code = none;
    cached_storage = λ _. none;
    dirty_storage = λ _. none;
    dirty_code = false;
    suicided = false;
    deleted = false;
  }

  -- `empty`
  unfoldable pub is_empty : Backend Trie → StateObject Trie → Bool
  is_empty db o =
      (o.account.nonce == 0)
      && (is_zero o.account.balance && (o.account.code_hash == empty_code_hash db))

  abbrev pub set_error : StateObject Trie → Option Err → StateObject Trie
  set_error o e = record o { db_err = first_error o.db_err e }

  -- `getTrie`, on the answer of `OpenStorageTrie`
  keep_trie : Backend Trie → StateObject Trie → OpenResult Trie → Trie × StateObject Trie
  keep_trie db o (opened t) = (t, record o { trie = some t })
  keep_trie db o (failed e) =
      let t = db.empty_storage_trie o.addr_hash in
      (t, set_error (record o { trie = some t }) (some e))

  unfoldable pub get_trie : Backend Trie → StateObject Trie → Trie × StateObject Trie
  unfolding keep_trie
  get_trie db o = elim o.trie [
    | none ↦ keep_trie db o (db.open_storage_trie o.addr_hash o.account.root)
    | some t ↦ (t, o)
  ]

  -- The end of `GetState`, on what the storage trie answered.
  load_value : Backend Trie → StateObject Trie → ℕ → List ℕ → ℕ × StateObject Trie
  load_value db o key [] = (0, record o { cached_storage = update o.cached_storage key (some 0) })
  load_value db o key (b ∷ enc) =
      let (content, err) = db.split (b ∷ enc) in
      let value = db.hash_of_bytes content in
      (
        value,
        record (set_error o err) { cached_storage = update o.cached_storage key (some value) },
      )

  read_value : Backend Trie → StateObject Trie → ℕ → List ℕ × Option Err → ℕ × StateObject Trie
  unfolding load_value
  read_value db o key (enc, none) = load_value db o key enc
  read_value db o key (enc, some e) = (0, set_error o (some e))

  -- `GetState`
  unfoldable pub get_state_object_value : Backend Trie → StateObject Trie → ℕ → ℕ × StateObject Trie
  unfolding get_trie read_value
  get_state_object_value db o key = elim (o.cached_storage key) [
    | some value ↦ (value, o)
    | none ↦ let (t, o') = get_trie db o in read_value db o' key (db.try_get t key)
  ]

  -- `setState`
  abbrev pub set_object_state : StateObject Trie → ℕ → ℕ → StateObject Trie
  set_object_state o key value = record o {
    cached_storage = update o.cached_storage key (some value);
    dirty_storage = update o.dirty_storage key (some value);
  }

  -- `Code`
  unfoldable pub object_code : Backend Trie → StateObject Trie → Option (List ℕ) × StateObject Trie
  object_code db o = elim o.code [
    | some c ↦ (some c, o)
    | none ↦
        if o.account.code_hash == empty_code_hash db
        then (none, o)
        else (let (c, err) = db.contract_code o.addr_hash o.account.code_hash in
            (c, record (set_error o err) { code = c }))
  ]

  -- `setBalance`, `setNonce`, `setCode`, `markSuicided`
  abbrev pub set_object_balance : StateObject Trie → ℤ → StateObject Trie
  set_object_balance o amount = record o { account = record (o.account) { balance = amount } }

  abbrev pub set_object_nonce : StateObject Trie → ℕ → StateObject Trie
  set_object_nonce o nonce = record o { account = record (o.account) { nonce = nonce } }

  abbrev pub set_object_code : StateObject Trie → ℕ → Option (List ℕ) → StateObject Trie
  set_object_code o code_hash code = record o {
    code = code;
    account = record (o.account) { code_hash = code_hash };
    dirty_code = true;
  }

  abbrev pub mark_suicided : StateObject Trie → StateObject Trie
  mark_suicided o = record o { suicided = true }
