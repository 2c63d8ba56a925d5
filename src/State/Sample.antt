-- ===== src/State/Sample.antt =====
-- A StateDB over a trie that is a plain map, for the tests.
use kkchain.Base.{ℕ, List, [], ◌∷◌, Option, none, some, update, pos}
use kkchain.State.Types.{AccountData, opened, Backend, StateDb}
use kkchain.State.Lifecycle.{fresh_state}

abbrev pub PlainTrie : Type 0
PlainTrie = ℕ → List ℕ

abbrev pub decode_plain : List ℕ → Option AccountData
decode_plain (n ∷ b ∷ _) =
    some (record { nonce = n; balance = some (pos b); root = 0; code_hash = none })
decode_plain _ = none

abbrev pub plain : Backend PlainTrie
plain = record {
  open_trie = λ root. opened (λ _. []);
  open_storage_trie = λ h root. opened (λ _. []);
  empty_storage_trie = λ h. (λ _. []);
  copy_trie = λ t. t;
  try_get = λ t k. (t k, none);
  try_update = λ t k v. (update t k v, none);
  try_delete = λ t k. (update t k [], none);
  trie_hash = λ t. 0;
  contract_code = λ h k. (none, none);
  contract_code_size = λ h k. (0, none);
  decode_account = decode_plain;
  encode_account = λ a. a.nonce ∷ 0 ∷ [];
  split = λ enc. (enc, none);
  encode_value = λ v. v ∷ [];
  hash_of_bytes = λ bs. elim bs [ [] ↦ 0 | b ∷ _ ↦ b ];
  address_hash = λ a. a;
  keccak = λ bs. elim bs [ [] ↦ 1 | b ∷ _ ↦ b ];
}

-- Account 1 stands in the trie with nonce 4 and balance 10.
abbrev pub funded : StateDb PlainTrie
funded = fresh_state plain (update (λ _. []) 1 (4 ∷ 10 ∷ []))
