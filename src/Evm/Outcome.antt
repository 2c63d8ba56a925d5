-- ===== src/Evm/Outcome.antt =====
-- What a call of the EVM can have done to the state.
use kkchain.Base.{
  ℕ, ◌-◌, ◌≤◌, List, [], Option, none, some, Bool, if◌then◌else◌, bind_some, ◌≡◌, refl, ap, subst,
  ◌∙◌, arith, ℤ,
}
use kkchain.State.Types.{StateObject, StateDb}
use kkchain.State.Store.{get_state_object}
use kkchain.State.Getters.{answer_from, exist, get_balance, get_nonce, get_code_hash}
use kkchain.State.Revert.{snapshot}
use kkchain.State.World.{world}
use kkchain.State.Reads.{world-get_state_object}
use kkchain.State.Invariant.{Inv}
use kkchain.State.Steps.{call, gets_balance, adds_balance, subs_balance}
use kkchain.State.Rollback.{AllBelow}
use kkchain.State.Snapshots.{
  Exec, done, calls, takes_snapshot, reverts, Exec-Trace, revert_to_snapshot-restores,
}
use kkchain.Evm.Defs.{
  VmError, Contract, Ran, Evm, Called, is_reverted, can_transfer, transfer, finish_call,
}

module _ {Trie : Type 0} where
  -- A state in which a call can start.
  pub record Ready (s : StateDb Trie) : Type 0 where
    pub inv : Inv s
    pub below : AllBelow s.next_revision_id s.valid_revisions

  -- What is known of `run`: it acts on the state by the methods of a StateDB, its calls of other
  -- contracts included, in a state in which a call can start; and the gas only falls.
  pub record RunLaw (evm : Evm Trie) : Type 0 where
    pub acts :
        (read_only : Bool) (c : Contract) (input : List ℕ) (s : StateDb Trie)
        → Ready s
        → Exec s (evm.runs read_only c input s).state
    pub falls :
        (read_only : Bool) (c : Contract) (input : List ℕ) (s : StateDb Trie)
        → Ready s
        → (evm.runs read_only c input s).gas ≤ c.gas

  -- A call returns; it acts by the methods of a StateDB, leaves at most its gas, and when it fails,
  -- the world is what it was.
  pub record Outcome (s : StateDb Trie) (gas : ℕ) (o : Option (Called Trie)) : Type 0 where
    pub result : Called Trie
    pub returned : o ≡ some result
    pub run : Exec s result.state
    pub gas_left : result.gas ≤ gas
    pub undone : (e : VmError) → result.error ≡ some e → world result.state ≡ world s

  pub Exec-append : {s t u : StateDb Trie} → Exec s t → Exec t u → Exec s u
  Exec-append done q = q
  Exec-append (calls c p) q = calls c (Exec-append p q)
  Exec-append (takes_snapshot p) q = takes_snapshot (Exec-append p q)
  Exec-append (reverts p e r) q = reverts p e (Exec-append r q)

  pub Exec-Ready : {s t : StateDb Trie} → Exec s t → Ready s → Ready t
  Exec-Ready p r =
      let trace = Exec-Trace p r.inv r.below in record { inv = trace.inv; below = trace.below }

  pub snapshot-Ready : (s : StateDb Trie) → Ready s → Ready (snapshot s).0
  snapshot-Ready s r = Exec-Ready (takes_snapshot done) r

  answer-state {ℓ ℓ'} :
      {A : Type ℓ} {B : Type ℓ'} (d : A) (f : StateObject Trie → A) (d' : B)
      (g : StateObject Trie → B) (x : StateDb Trie × Option (StateObject Trie))
      → (answer_from d f x).0 ≡ (answer_from d' g x).0
  answer-state d f d' g (s, none) = refl
  answer-state d f d' g (s, some o) = refl

  answer-world {ℓ} :
      {A : Type ℓ} (d : A) (f : StateObject Trie → A) (s : StateDb Trie) (a : ℕ)
      → world (answer_from d f (get_state_object s a)).0 ≡ world s
  answer-world d f s a = ap world (state_of (get_state_object s a)) ∙ world-get_state_object s a
    where
      state_of : (x : StateDb Trie × Option (StateObject Trie)) → (answer_from d f x).0 ≡ x.0
      state_of (s', none) = refl
      state_of (s', some o) = refl

  pub exist-Exec : (s : StateDb Trie) (a : ℕ) → Exec s (exist s a).0
  unfolding exist call get_balance
  exist-Exec s a =
      subst (Exec s) (answer-state _ _ _ _ (get_state_object s a)) (calls (gets_balance a) done)

  pub get_code_hash-Exec : (s : StateDb Trie) (a : ℕ) → Exec s (get_code_hash s a).0
  unfolding get_code_hash call get_balance
  get_code_hash-Exec s a =
      subst (Exec s) (answer-state _ _ _ _ (get_state_object s a)) (calls (gets_balance a) done)

  pub can_transfer-Exec : (s : StateDb Trie) (a : ℕ) (v : ℤ) → Exec s (can_transfer s a v).0
  unfolding can_transfer call
  can_transfer-Exec s a v = calls (gets_balance a) done

  pub world-can_transfer :
      (s : StateDb Trie) (a : ℕ) (v : ℤ) → world (can_transfer s a v).0 ≡ world s
  unfolding can_transfer get_balance
  world-can_transfer s a v = answer-world _ _ s a

  pub world-get_balance : (s : StateDb Trie) (a : ℕ) → world (get_balance s a).0 ≡ world s
  unfolding get_balance
  world-get_balance s a = answer-world _ _ s a

  pub world-get_code_hash : (s : StateDb Trie) (a : ℕ) → world (get_code_hash s a).0 ≡ world s
  unfolding get_code_hash
  world-get_code_hash s a = answer-world _ _ s a

  pub world-get_nonce : (s : StateDb Trie) (a : ℕ) → world (get_nonce s a).0 ≡ world s
  unfolding get_nonce
  world-get_nonce s a = answer-world _ _ s a

  pub transfer-Exec : (s : StateDb Trie) (a b : ℕ) (v : ℤ) → Exec s (transfer s a b v)
  unfolding transfer call
  transfer-Exec s a b v = calls (subs_balance a v) (calls (adds_balance b v) done)

  -- A call that returns at once, in a state with the same world.
  pub returns-Outcome :
      (s t : StateDb Trie) (gas gas' : ℕ) (e : Option VmError)
      → Exec s t
      → world t ≡ world s
      → gas' ≤ gas
      → Outcome s gas (some (record { state = t; output = []; gas = gas'; error = e }))
  returns-Outcome s t gas gas' e p w h = record {
    result = record { state = t; output = []; gas = gas'; error = e };
    returned = refl;
    run = p;
    gas_left = h;
    undone = λ _ _. w;
  }

  -- What comes before a call that leaves the world as it was.
  pub Outcome-after :
      {s t : StateDb Trie} {gas : ℕ} {o : Option (Called Trie)}
      → Exec s t
      → world t ≡ world s
      → Outcome t gas o
      → Outcome s gas o
  Outcome-after p w o = record {
    result = o.result;
    returned = o.returned;
    run = Exec-append p o.run;
    gas_left = o.gas_left;
    undone = λ e h. o.undone e h ∙ w;
  }

  -- The end of a call that ran under a snapshot.
  pub finish_call-Outcome :
      (s : StateDb Trie) (r : Ran Trie) (gas : ℕ)
      → Ready s
      → Exec (snapshot s).0 r.state
      → r.gas ≤ gas
      → Outcome s gas (finish_call (snapshot s).1 r)
  unfolding finish_call
  finish_call-Outcome s r gas ready p h = go r.error
    where
      go :
          (e : Option VmError) → Outcome s gas (finish_call (snapshot s).1 (record r { error = e }))
      go none = record {
        result = record { state = r.state; output = r.output; gas = r.gas; error = none };
        returned = refl;
        run = takes_snapshot p;
        gas_left = h;
        undone = λ e x. cc;
      }
      go (some e) =
          let back = revert_to_snapshot-restores s r.state ready.inv ready.below p in
          record {
            result = record {
              state = back.0;
              output = r.output;
              gas = if is_reverted e then r.gas else r.gas - r.gas;
              error = some e;
            };
            returned = bind_some _ back.1 refl;
            run = reverts p back.1 done;
            gas_left = ground (arith, h);
            undone = λ _ _. back.2.worlds;
          }
