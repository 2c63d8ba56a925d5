-- ===== src/State/Views.antt =====
-- The view of one object of core/state under lazy reads and under its setters.
use kkchain.Base.{ℕ, List, [], ◌∷◌, Option, none, some, Bool, update, ℤ, ◌⊎◌, ◌≡◌, refl, arith}
use kkchain.State.Types.{Backend, StateObject, Err}
use kkchain.State.Object.{
  get_trie, get_state_object_value, set_object_state, object_code, set_object_balance,
  set_object_nonce, set_object_code,
}
use kkchain.State.World.{AccountView, view_object, code_at}

module _ {Trie : Type 0} (db : Backend Trie) where
  storage_of : StateObject Trie → ℕ → ℕ
  storage_of o key = (get_state_object_value db o key).0

  -- The storage trie that an object reads.
  trie_of : StateObject Trie → Trie
  trie_of o = (get_trie db o).0

  -- What a read of the storage trie answers.
  answer : List ℕ × Option Err → ℕ
  answer (enc, some e) = 0
  answer ([], none) = 0
  answer (b ∷ enc, none) = db.hash_of_bytes (db.split (b ∷ enc)).0

  storage_of_lem :
      (o : StateObject Trie) (key : ℕ)
      → storage_of o key
        ≡ (elim (o.cached_storage key) [ some v ↦ v | none ↦ answer (db.try_get (trie_of o) key) ])
  unfolding storage_of trie_of answer get_state_object_value get_trie
  storage_of_lem o key = ground arith

  -- What a load of a storage value keeps.
  pub record Kept (o o' : StateObject Trie) : Type 0 where
    pub addresses : o'.address ≡ o.address
    pub hashes : o'.addr_hash ≡ o.addr_hash
    pub accounts : o'.account ≡ o.account
    pub codes : o'.code ≡ o.code
    pub suicides : o'.suicided ≡ o.suicided
    pub deletions : o'.deleted ≡ o.deleted

  pub value-Kept : (o : StateObject Trie) (key : ℕ) → Kept o (get_state_object_value db o key).1
  unfolding get_state_object_value get_trie
  value-Kept o key = ground arith

  trie_of-value :
      (o : StateObject Trie) (key : ℕ) → trie_of (get_state_object_value db o key).1 ≡ trie_of o
  unfolding trie_of get_state_object_value get_trie
  trie_of-value o key = ground arith

  cached-value :
      (o : StateObject Trie) (key j : ℕ)
      → ((get_state_object_value db o key).1.cached_storage j ≡ o.cached_storage j)
        ⊎ ((j ≡ key)
            × ((get_state_object_value db o key).1.cached_storage j ≡ some (storage_of o key)))
  unfolding get_state_object_value get_trie storage_of
  cached-value o key j = ground arith

  storage_of-value :
      (o : StateObject Trie) (key j : ℕ)
      → storage_of (get_state_object_value db o key).1 j ≡ storage_of o j
  storage_of-value o key j = ground (
    arith,
    storage_of_lem o j,
    storage_of_lem (get_state_object_value db o key).1 j,
    cached-value o key j,
    trie_of-value o key,
  )

  code_of_Kept :
      {o o' : StateObject Trie} → Kept o o' → (object_code db o').0 ≡ (object_code db o).0
  unfolding object_code
  code_of_Kept k = ground arith

  -- A view is known by its parts.
  view_parts :
      (o : StateObject Trie) (v : AccountView)
      → (o.addr_hash ≡ v.addr_hash)
        × (o.account.nonce ≡ v.nonce)
        × (o.account.balance ≡ v.balance)
        × (o.account.code_hash ≡ v.code_hash)
        × ((object_code db o).0 ≡ v.code)
        × (o.suicided ≡ v.suicided)
      → ((j : ℕ) → storage_of o j ≡ v.storage j)
      → view_object db o ≡ v
  unfolding view_object storage_of
  view_parts o v p h = λ i. record {
    addr_hash = p.0 i;
    nonce = p.1 i;
    balance = p.2 i;
    code_hash = p.3 i;
    code = p.4 i;
    storage = λ j. h j i;
    suicided = p.5 i;
  }

  view_Kept :
      {o o' : StateObject Trie}
      → Kept o o'
      → ((j : ℕ) → storage_of o' j ≡ storage_of o j)
      → view_object db o' ≡ view_object db o
  unfolding view_object storage_of
  view_Kept {o} {o'} k h =
      view_parts o' (view_object db o)
        (k.hashes, ground arith, ground arith, ground arith, code_of_Kept k, k.suicides) h

  -- `GetState` loads a value and leaves the view.
  pub view-value :
      (o : StateObject Trie) (key : ℕ)
      → view_object db (get_state_object_value db o key).1 ≡ view_object db o
  view-value o key = view_Kept (value-Kept o key) (storage_of-value o key)

  pub code-account : (o : StateObject Trie) → (object_code db o).1.account ≡ o.account
  unfolding object_code
  code-account o = ground arith

  pub code-code :
      (o : StateObject Trie) → (object_code db (object_code db o).1).0 ≡ (object_code db o).0
  unfolding object_code
  code-code o = ground arith

  pub code-Same :
      (o : StateObject Trie)
      → ((object_code db o).1.address ≡ o.address)
        × ((object_code db o).1.addr_hash ≡ o.addr_hash)
        × ((object_code db o).1.suicided ≡ o.suicided)
        × ((object_code db o).1.deleted ≡ o.deleted)
  unfolding object_code
  code-Same o = ground arith

  -- The code that an object shows is the code that it is read with.
  pub code_at_self :
      (o : StateObject Trie)
      → code_at db o.addr_hash o.account.code_hash (object_code db o).0 ≡ (object_code db o).0
  unfolding object_code
  code_at_self o = ground arith

  storage_of-code :
      (o : StateObject Trie) (j : ℕ) → storage_of (object_code db o).1 j ≡ storage_of o j
  unfolding object_code
  storage_of-code o j =
      ground (arith, storage_of_lem o j, storage_of_lem (object_code db o).1 j, trie_same)
    where
      trie_same : trie_of (object_code db o).1 ≡ trie_of o
      trie_same = unfold trie_of get_trie in ground arith

  -- `Code` loads the code and leaves the view.
  pub view-code : (o : StateObject Trie) → view_object db (object_code db o).1 ≡ view_object db o
  unfolding view_object storage_of
  view-code o =
      view_parts (object_code db o).1 (view_object db o)
        (
          (code-Same o).1,
          ground (arith, code-account o),
          ground (arith, code-account o),
          ground (arith, code-account o),
          code-code o,
          (code-Same o).2,
        )
        (storage_of-code o)

  module _ (o o' : StateObject Trie) (hashes : o'.addr_hash ≡ o.addr_hash) where
    -- Storage reads depend on the cache, the open trie and the root alone.
    storage_of_same :
        o'.account.root ≡ o.account.root
        → o'.trie ≡ o.trie
        → o'.cached_storage ≡ o.cached_storage
        → (j : ℕ) → storage_of o' j ≡ storage_of o j
    storage_of_same r t c j = ground (arith, storage_of_lem o j, storage_of_lem o' j, trie_same)
      where
        trie_same : trie_of o' ≡ trie_of o
        trie_same = unfold trie_of get_trie in ground arith

    code_of_same :
        o'.account.code_hash ≡ o.account.code_hash
        → o'.code ≡ o.code
        → (object_code db o').0 ≡ (object_code db o).0
    unfolding object_code
    code_of_same h c = ground arith

  pub view-set_balance :
      (o : StateObject Trie) (b : ℤ)
      → view_object db (set_object_balance o b) ≡ record (view_object db o) { balance = b }
  unfolding view_object storage_of
  view-set_balance o b =
      view_parts (set_object_balance o b) (record (view_object db o) { balance = b })
        (refl, refl, refl, refl, code_of_same o (set_object_balance o b) refl refl refl, refl)
        (storage_of_same o (set_object_balance o b) refl refl refl refl)

  pub view-set_nonce :
      (o : StateObject Trie) (n : ℕ)
      → view_object db (set_object_nonce o n) ≡ record (view_object db o) { nonce = n }
  unfolding view_object storage_of
  view-set_nonce o n =
      view_parts (set_object_nonce o n) (record (view_object db o) { nonce = n })
        (refl, refl, refl, refl, code_of_same o (set_object_nonce o n) refl refl refl, refl)
        (storage_of_same o (set_object_nonce o n) refl refl refl refl)

  pub view-set_suicided :
      (o : StateObject Trie) (b : ℤ) (x : Bool)
      → view_object db (set_object_balance (record o { suicided = x }) b)
        ≡ record (view_object db o) { balance = b; suicided = x }
  unfolding view_object storage_of
  view-set_suicided o b x =
      let o' : StateObject Trie = set_object_balance (record o { suicided = x }) b in
      view_parts o' (record (view_object db o) { balance = b; suicided = x })
        (refl, refl, refl, refl, code_of_same o o' refl refl refl, refl)
        (storage_of_same o o' refl refl refl refl)

  pub view-set_state :
      (o : StateObject Trie) (key value : ℕ)
      → view_object db (set_object_state o key value)
        ≡ record (view_object db o) { storage = update (view_object db o).storage key value }
  unfolding view_object storage_of
  view-set_state o key value =
      let o' : StateObject Trie = set_object_state o key value in
      view_parts o'
        (record (view_object db o) { storage = update (view_object db o).storage key value })
        (refl, refl, refl, refl, code_of_same o o' refl refl refl, refl)
        (λ j. unfold get_state_object_value get_trie in ground arith)

  pub view-set_code :
      (o : StateObject Trie) (h : ℕ) (c : Option (List ℕ))
      → view_object db (set_object_code o h c)
        ≡ record (view_object db o) { code_hash = h; code = code_at db o.addr_hash h c }
  unfolding view_object storage_of
  view-set_code o h c =
      view_parts (set_object_code o h c)
        (record (view_object db o) { code_hash = h; code = code_at db o.addr_hash h c })
        (refl, refl, refl, refl, (unfold object_code in ground arith), refl)
        (storage_of_same o (set_object_code o h c) refl refl refl refl)
