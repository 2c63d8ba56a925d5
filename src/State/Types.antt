-- ===== src/State/Types.antt =====
-- The data of core/state: statedb.go, state_object.go and journal.go.
-- Addresses, hashes, storage keys and values are numbers. A Go map is a function; its zero value,
-- or `none`, stands for a missing key. A Go pointer into `stateObjects` is the address it is kept
-- under, since each live object is reached through that map only.
use kkchain.Base.{ℕ, List, Option, Bool, ℤ}

-- An opaque Go error.
pub data Err : Type 0 where
  code : ℕ → Err

-- `Account` as it comes out of the trie, or as the literal `Account{}`: nil fields are `none`.
pub record AccountData : Type 0 where
  pub nonce : ℕ
  pub balance : Option ℤ
  pub root : ℕ
  pub code_hash : Option ℕ

-- `Account` after `newObject` has filled in its nil fields.
pub record Account : Type 0 where
  pub nonce : ℕ
  pub balance : ℤ
  pub root : ℕ
  pub code_hash : ℕ

-- A trie, or the error of opening it.
pub data OpenResult (Trie : Type 0) : Type 0 where
  opened : Trie → OpenResult Trie
  failed : Err → OpenResult Trie

-- What core/state calls in the packages trie, rlp and crypto and in the code database. Reads are
-- functions of their arguments: the same read gives the same answer.
pub record Backend (Trie : Type 0) : Type 0 where
  pub open_trie : ℕ → OpenResult Trie
  pub open_storage_trie : ℕ → ℕ → OpenResult Trie
  pub empty_storage_trie : ℕ → Trie
  pub copy_trie : Trie → Trie
  pub try_get : Trie → ℕ → List ℕ × Option Err
  pub try_update : Trie → ℕ → List ℕ → Trie × Option Err
  pub try_delete : Trie → ℕ → Trie × Option Err
  pub trie_hash : Trie → ℕ
  pub contract_code : ℕ → ℕ → Option (List ℕ) × Option Err
  pub contract_code_size : ℕ → ℕ → ℕ × Option Err
  pub decode_account : List ℕ → Option AccountData
  pub encode_account : Account → List ℕ
  pub split : List ℕ → List ℕ × Option Err
  pub encode_value : ℕ → List ℕ
  pub hash_of_bytes : List ℕ → ℕ
  pub address_hash : ℕ → ℕ
  pub keccak : List ℕ → ℕ

pub record StateObject (Trie : Type 0) : Type 0 where
  pub address : ℕ
  pub addr_hash : ℕ
  pub account : Account
  pub db_err : Option Err
  pub trie : Option Trie
  pub code : Option (List ℕ)
  pub cached_storage : ℕ → Option ℕ
  pub dirty_storage : ℕ → Option ℕ
  pub dirty_code : Bool
  pub suicided : Bool
  pub deleted : Bool

-- The implementations of `journalEntry`.
pub data Entry (Trie : Type 0) : Type 0 where
  create_object_change : ℕ → Entry Trie
  reset_object_change : StateObject Trie → Entry Trie
  suicide_change : ℕ → Bool → ℤ → Entry Trie
  balance_change : ℕ → ℤ → Entry Trie
  nonce_change : ℕ → ℕ → Entry Trie
  storage_change : ℕ → ℕ → ℕ → Entry Trie
  code_change : ℕ → Option (List ℕ) → ℕ → Entry Trie
  refund_change : ℕ → Entry Trie
  add_log_change : ℕ → Entry Trie
  add_preimage_change : ℕ → Entry Trie
  touch_change : ℕ → Entry Trie

-- The newest entry stands first.
pub record Journal (Trie : Type 0) : Type 0 where
  pub entries : List (Entry Trie)
  pub dirties : ℕ → ℕ

-- `types.Log`: what the contract logged, and the fields that `AddLog` fills in.
pub record Log : Type 0 where
  pub payload : List ℕ
  pub tx_hash : ℕ
  pub block_hash : ℕ
  pub tx_index : ℕ
  pub index : ℕ

pub record Revision : Type 0 where
  pub id : ℕ
  pub journal_index : ℕ

pub record StateDb (Trie : Type 0) : Type 0 where
  pub db : Backend Trie
  pub trie : Trie
  pub state_objects : ℕ → Option (StateObject Trie)
  pub state_objects_dirty : ℕ → Bool
  pub db_err : Option Err
  pub refund : ℕ
  pub thash : ℕ
  pub bhash : ℕ
  pub tx_index : ℕ
  pub logs : ℕ → List Log
  pub log_size : ℕ
  pub preimages : ℕ → Option (List ℕ)
  pub journal : Journal Trie
  pub valid_revisions : List Revision
  pub next_revision_id : ℕ
