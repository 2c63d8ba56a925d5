-- ===== src/State/Steps.antt =====
-- The calls of the methods of a StateDB, as one function, and each as a step.
use kkchain.Base.{ℕ, List, [], Option, none, some, true, false, ◌≡◌, refl, ap, sym, subst, ◌∙◌, ℤ}
use kkchain.State.Types.{Err, StateObject, StateDb}
use kkchain.State.Object.{get_state_object_value, object_code, big_zero, is_empty}
use kkchain.State.Store.{set_state_object, set_db_error, get_state_object, create_account}
use kkchain.State.Methods.{
  change_balance, change_nonce, change_code, change_state, add_object_balance, sub_object_balance,
  add_balance, sub_balance, set_balance, set_nonce, set_code, set_state, suicide, add_log,
  add_preimage, add_refund,
}
use kkchain.State.Getters.{
  answer_from, load_from, exist, empty, has_suicided, get_code_hash, size_from, get_code_size,
  get_balance, get_nonce, get_code, get_state,
}
use kkchain.State.World.{view_object, peek, world, undo_all}
use kkchain.State.Reads.{Found, get_state_object-Found}
use kkchain.State.Views.{view-value, view-code, value-Kept, code-Same}
use kkchain.State.Undo.{world_write}
use kkchain.State.Invariant.{Inv, set_state_object-Inv}
use kkchain.State.Step.{Step, Step-trans, Step-get, set_account_same}
use kkchain.State.Setters.{
  IsLive, change_balance-Step, change_nonce-Step, change_code-Step, change_state-Step,
}
use kkchain.State.Create.{Found-IsLive, create_account-Step}
use kkchain.State.Changes.{
  add_object_balance-Step, sub_object_balance-Step, then_change, suicide-Step, add_log-Step,
  add_preimage-Step, add_refund-Step,
}

-- The calls that an execution makes on the state.
pub data Call : Type 0 where
  exists is_empty_at gets_balance gets_nonce gets_code_hash gets_code_size : ℕ → Call
  has_suicided_at gets_code creates suicides : ℕ → Call
  gets_state : ℕ → ℕ → Call
  adds_balance subs_balance sets_balance : ℕ → ℤ → Call
  sets_nonce : ℕ → ℕ → Call
  sets_code : ℕ → List ℕ → Call
  sets_state : ℕ → ℕ → ℕ → Call
  adds_log : List ℕ → Call
  adds_preimage : ℕ → List ℕ → Call
  adds_refund : ℕ → Call

module _ {Trie : Type 0} where
  unfoldable pub call : Call → StateDb Trie → StateDb Trie
  call (exists a) s = (exist s a).0
  call (is_empty_at a) s = (empty s a).0
  call (has_suicided_at a) s = (has_suicided s a).0
  call (gets_code_hash a) s = (get_code_hash s a).0
  call (gets_code_size a) s = (get_code_size s a).0
  call (gets_balance a) s = (get_balance s a).0
  call (gets_nonce a) s = (get_nonce s a).0
  call (gets_code a) s = (get_code s a).0
  call (gets_state a key) s = (get_state s a key).0
  call (creates a) s = create_account s a
  call (suicides a) s = (suicide s a).0
  call (adds_balance a amount) s = add_balance s a amount
  call (subs_balance a amount) s = sub_balance s a amount
  call (sets_balance a amount) s = set_balance s a amount
  call (sets_nonce a nonce) s = set_nonce s a nonce
  call (sets_code a code) s = set_code s a code
  call (sets_state a key value) s = set_state s a key value
  call (adds_log payload) s = add_log s payload
  call (adds_preimage hash preimage) s = add_preimage s hash preimage
  call (adds_refund gas) s = add_refund s gas

  -- Writing back an object whose caches were filled.
  refresh-Step :
      (s : StateDb Trie) (o o' : StateObject Trie)
      → Inv s
      → IsLive s o
      → o'.address ≡ o.address
      → o'.deleted ≡ false
      → view_object s.db o' ≡ view_object s.db o
      → Step s (set_state_object s o')
  unfolding undo_all
  refresh-Step s o o' v l k d e = record {
    added = [];
    entries = refl;
    dbs = refl;
    tries = refl;
    revisions = refl;
    next_ids = refl;
    undone = ap some (
        world_write s s o.address o' (view_object s.db o) refl refl k d e
        ∙ set_account_same (world s) o.address _ l.shown);
    inv = set_state_object-Inv o' v d;
  }

  answer-Step :
      {A : Type 0} (d : A) (f : StateObject Trie → A) (s : StateDb Trie) (a : ℕ)
      → Inv s
      → Step s (answer_from d f (get_state_object s a)).0
  answer-Step d f s a v =
      subst (λ t. Step s t) (sym (state_of (get_state_object s a))) (Step-get s a v)
    where
      state_of : (p : StateDb Trie × Option (StateObject Trie)) → (answer_from d f p).0 ≡ p.0
      state_of (t, none) = refl
      state_of (t, some o) = refl

  load-Step :
      {A : Type 0} (d : A) (f : StateObject Trie → A × StateObject Trie) (s : StateDb Trie) (a : ℕ)
      → ((o : StateObject Trie)
          → ((f o).1.address ≡ o.address)
            × ((f o).1.deleted ≡ o.deleted)
            × (view_object s.db (f o).1 ≡ view_object s.db o))
      → Inv s
      → Step s (load_from d f (get_state_object s a)).0
  load-Step d f s a h v =
      go (get_state_object s a).0 (get_state_object s a).1 (get_state_object-Found s a)
        (Step-get s a v)
    where
      go :
          (s' : StateDb Trie) (r : Option (StateObject Trie))
          → Found s a s' r
          → Step s s'
          → Step s (load_from d f (s', r)).0
      go s' none found first = first
      go s' (some o) found first =
          let (k, l) = Found-IsLive o found v refl in
          Step-trans first (
            refresh-Step s' o (f o).1 first.inv l (h o).0 ((h o).1 ∙ l.alive)
              (rw first.dbs (h o).2))

  set_db_error-Step : (s : StateDb Trie) (e : Option Err) → Inv s → Step s (set_db_error s e)
  unfolding undo_all world peek
  set_db_error-Step s e v = record {
    added = [];
    entries = refl;
    dbs = refl;
    tries = refl;
    revisions = refl;
    next_ids = refl;
    undone = refl;
    inv = record { keyed = v.keyed; cleared = v.cleared; sound = v.sound };
  }

  get_code_size-Step : (s : StateDb Trie) (a : ℕ) → Inv s → Step s (get_code_size s a).0
  unfolding get_code_size size_from
  get_code_size-Step s a v = go (get_state_object s a).0 (get_state_object s a).1 (Step-get s a v)
    where
      sized :
          (t : StateDb Trie) (o : StateObject Trie) (c : Option (List ℕ))
          → Step s t
          → Step s (size_from (t, some (record o { code = c }))).0
      sized t o (some c) first = first
      sized t o none first = Step-trans first (
          set_db_error-Step t (t.db.contract_code_size o.addr_hash o.account.code_hash).1 first.inv)

      go :
          (t : StateDb Trie) (r : Option (StateObject Trie))
          → Step s t
          → Step s (size_from (t, r)).0
      go t none first = first
      go t (some o) first = sized t o o.code first

  -- From a state with the invariant, every call keeps it, and undoing the entries that the call
  -- logged gives the old world.
  pub call-Step : (c : Call) (s : StateDb Trie) → Inv s → Step s (call c s)
  unfolding call
  call-Step (exists a) s v = unfold exist in answer-Step false (λ _. true) s a v
  call-Step (is_empty_at a) s v = unfold empty in answer-Step true (is_empty s.db) s a v
  call-Step (has_suicided_at a) s v =
      unfold has_suicided in answer-Step false (λ o. o.suicided) s a v
  call-Step (gets_code_hash a) s v =
      unfold get_code_hash in answer-Step 0 (λ o. o.account.code_hash) s a v
  call-Step (gets_code_size a) s v = get_code_size-Step s a v
  call-Step (gets_balance a) s v =
      unfold get_balance in answer-Step big_zero (λ o. o.account.balance) s a v
  call-Step (gets_nonce a) s v = unfold get_nonce in answer-Step 0 (λ o. o.account.nonce) s a v
  call-Step (gets_code a) s v =
      unfold get_code in
      load-Step none (object_code s.db) s a
        (λ o. ((code-Same s.db o).0, (code-Same s.db o).3, view-code s.db o)) v
  call-Step (gets_state a key) s v =
      unfold get_state in
      load-Step 0 (λ o. get_state_object_value s.db o key) s a
        (λ o.
          let kept = value-Kept s.db o key in
          (kept.addresses, kept.deletions, view-value s.db o key))
        v
  call-Step (creates a) s v = create_account-Step s a v
  call-Step (suicides a) s v = suicide-Step s a v
  call-Step (adds_balance a amount) s v =
      unfold add_balance in
      then_change (λ t o. add_object_balance t o amount) (λ t o. add_object_balance-Step t o amount)
        s a v
  call-Step (subs_balance a amount) s v =
      unfold sub_balance in
      then_change (λ t o. sub_object_balance t o amount) (λ t o. sub_object_balance-Step t o amount)
        s a v
  call-Step (sets_balance a amount) s v =
      unfold set_balance in
      then_change (λ t o. change_balance t o amount) (λ t o. change_balance-Step t o amount) s a v
  call-Step (sets_nonce a nonce) s v =
      unfold set_nonce in
      then_change (λ t o. change_nonce t o nonce) (λ t o. change_nonce-Step t o nonce) s a v
  call-Step (sets_code a code) s v =
      unfold set_code in
      then_change (λ t o. change_code t o (t.db.keccak code) code)
        (λ t o. change_code-Step t o (t.db.keccak code) code) s a v
  call-Step (sets_state a key value) s v =
      unfold set_state in
      then_change (λ t o. change_state t o key value) (λ t o. change_state-Step t o key value) s a v
  call-Step (adds_log payload) s v = add_log-Step s payload v
  call-Step (adds_preimage hash preimage) s v = add_preimage-Step s hash preimage v
  call-Step (adds_refund gas) s v = add_refund-Step s gas v
