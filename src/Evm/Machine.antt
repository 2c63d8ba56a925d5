-- ===== src/Evm/Machine.antt =====
-- Interpreters for core/vm/evm.go that satisfy what the theorems on its calls assume of `run`: a
-- program chooses, from the state it sees, a call on the state, gas to use, or a call of an EVM that
-- is one level deeper, as the instructions of core/vm/instructions.go do. The EVM above the deepest
-- level runs nothing, since its calls are refused.
use kkchain.Base.{
  ℕ, zero, suc, ◌+◌, ◌-◌, ◌≤◌, List, [], Option, none, some, Bool, ltb, if◌then◌else◌, Bool-cases,
  ◌≡◌, inl, inr, arith, ℤ,
}
use kkchain.State.Types.{StateDb}
use kkchain.State.Object.{big_zero}
use kkchain.State.Steps.{Call, call}
use kkchain.State.Snapshots.{Exec, done, calls}
use kkchain.Evm.Defs.{
  VmError, out_of_gas, depth_limit, Contract, Ran, Evm, Called, new_contract, call_contract,
  call_code, delegate_call, static_call,
}
use kkchain.Evm.Create.{create_contract}
use kkchain.Evm.Outcome.{Ready, RunLaw, Outcome, Exec-append, Exec-Ready}
use kkchain.Evm.Calls.{call_contract-Outcome, code_calls-Outcome}
use kkchain.Evm.Creation.{create_contract-returns}

-- A call of an EVM from an instruction.
pub data Inner : Type 0 where
  by_call by_call_code : ℕ → ℕ → List ℕ → ℤ → Inner
  by_static_call : ℕ → ℕ → List ℕ → Inner
  by_delegate_call : Contract → ℕ → List ℕ → Inner
  by_create : ℕ → List ℕ → ℤ → ℕ → Inner

-- What a program does from here on. The gas of an inner call is at most what the instruction costs.
pub data Script (Trie : Type 0) : Type 0 where
  ends : List ℕ → Option VmError → Script Trie
  uses : ℕ → Script Trie → Script Trie
  acts_by : Call → (StateDb Trie → Script Trie) → Script Trie
  enters : (cost gas : ℕ) → gas ≤ cost → Inner → (Called Trie → Script Trie) → Script Trie

module _ {Trie : Type 0} where
  unfoldable pub inner_call : Evm Trie → Inner → ℕ → StateDb Trie → Option (Called Trie)
  inner_call evm (by_call caller addr input value) gas s =
      call_contract evm s caller addr input gas value
  inner_call evm (by_call_code caller addr input value) gas s =
      call_code evm s caller addr input gas value
  inner_call evm (by_static_call caller addr input) gas s = static_call evm s caller addr input gas
  inner_call evm (by_delegate_call parent addr input) gas s =
      delegate_call evm s parent addr input gas
  inner_call evm (by_create caller code value addr) gas s =
      create_contract evm s caller code gas value addr

  abbrev exhausted : StateDb Trie → ℕ → Ran Trie
  exhausted s gas = record { state = s; gas = gas; output = []; error = some out_of_gas }

  abbrev resume : (Called Trie → Ran Trie) → Ran Trie → Option (Called Trie) → Ran Trie
  resume k r none = r
  resume k r (some c) = k c

  unfoldable pub perform : Evm Trie → Script Trie → ℕ → StateDb Trie → Ran Trie
  unfolding inner_call
  perform evm (ends output error) gas s = record {
    state = s;
    gas = gas;
    output = output;
    error = error;
  }
  perform evm (uses amount rest) gas s =
      let next = perform evm rest (gas - amount) s in
      if ltb gas amount then exhausted s gas else next
  perform evm (acts_by c rest) gas s = perform evm (rest s) gas (call c s)
  perform evm (enters cost inner_gas within inner rest) gas s =
      let next =
        resume (λ r. perform evm (rest r) (gas - cost + r.gas) r.state) (exhausted s gas)
          (inner_call evm inner inner_gas s) in
      if ltb gas cost then exhausted s gas else next

  -- An EVM in which this many levels of calls are left, of 1025.
  unfoldable pub machine : Evm Trie → (Bool → Contract → List ℕ → Script Trie) → ℕ → Evm Trie
  unfolding perform
  machine base program zero = record base {
    depth = 1025;
    runs = λ read_only c input s. record {
      state = s;
      gas = c.gas;
      output = [];
      error = some depth_limit;
    };
  }
  machine base program (suc levels) =
      let deeper = machine base program levels in
      record base {
        depth = 1024 - levels;
        runs = λ read_only c input s. perform deeper (program read_only c input) c.gas s;
      }

  -- What an inner call does, of whatever kind.
  record Returns (s : StateDb Trie) (gas : ℕ) (o : Option (Called Trie)) : Type 0 where
    result : Called Trie
    returned : o ≡ some result
    run : Exec s result.state
    gas_left : result.gas ≤ gas

  Outcome-Returns :
      {s : StateDb Trie} {gas : ℕ} {o : Option (Called Trie)} → Outcome s gas o → Returns s gas o
  Outcome-Returns o = record {
    result = o.result;
    returned = o.returned;
    run = o.run;
    gas_left = o.gas_left;
  }

  inner_call-Returns :
      (evm : Evm Trie)
      → RunLaw evm
      → (i : Inner) (gas : ℕ) (s : StateDb Trie) → Ready s
      → Returns s gas (inner_call evm i gas s)
  unfolding inner_call
  inner_call-Returns evm law (by_call caller addr input value) gas s r =
      Outcome-Returns (call_contract-Outcome evm law s caller addr input gas value r)
  inner_call-Returns evm law (by_call_code caller addr input value) gas s r =
      Outcome-Returns
        (code_calls-Outcome evm law s caller addr (new_contract caller addr value gas) input gas
          value r).0
  inner_call-Returns evm law (by_static_call caller addr input) gas s r =
      Outcome-Returns
        (code_calls-Outcome evm law s caller addr (new_contract caller addr big_zero gas) input gas
          big_zero r).2
  inner_call-Returns evm law (by_delegate_call parent addr input) gas s r =
      Outcome-Returns (code_calls-Outcome evm law s addr addr parent input gas big_zero r).1
  inner_call-Returns evm law (by_create caller code value addr) gas s r =
      let (back, _, c) = create_contract-returns evm law s caller code gas value addr r in
      record { result = c.result; returned = c.returned; run = c.run; gas_left = c.gas_left }

  -- A program acts on the state by its methods, and does not add gas.
  record Acts (s : StateDb Trie) (gas : ℕ) (r : Ran Trie) : Type 0 where
    run : Exec s r.state
    falls : r.gas ≤ gas

  exhausted-Acts : (s : StateDb Trie) (gas : ℕ) → Acts s gas (exhausted s gas)
  exhausted-Acts s gas = record { run = done; falls = omega arith }

  Acts-after :
      {s t : StateDb Trie} {gas left : ℕ} {r : Ran Trie}
      → Exec s t
      → left ≤ gas
      → Acts t left r
      → Acts s gas r
  Acts-after p h a = record { run = Exec-append p a.run; falls = omega (arith, h, a.falls) }

  perform-Acts :
      (evm : Evm Trie)
      → RunLaw evm
      → (script : Script Trie) (gas : ℕ) (s : StateDb Trie) → Ready s
      → Acts s gas (perform evm script gas s)
  unfolding perform
  perform-Acts evm law (ends output error) gas s r = record { run = done; falls = omega arith }
  perform-Acts evm law (uses amount rest) gas s r =
      let next = perform-Acts evm law rest (gas - amount) s r in
      elim (Bool-cases (ltb gas amount)) [
        | inl x ↦ rw x (exhausted-Acts s gas)
        | inr x ↦ rw x (Acts-after done (omega arith) next)
      ]
  perform-Acts evm law (acts_by c rest) gas s r =
      let p : Exec s (call c s) = calls c done in
      Acts-after p (omega arith) (perform-Acts evm law (rest s) gas (call c s) (Exec-Ready p r))
  perform-Acts evm law (enters cost inner_gas within inner rest) gas s r =
      let i = inner_call-Returns evm law inner inner_gas s r in
      let left = gas - cost + i.result.gas in
      let next = perform-Acts evm law (rest i.result) left i.result.state (Exec-Ready i.run r) in
      elim (Bool-cases (ltb gas cost)) [
        | inl x ↦ rw x (exhausted-Acts s gas)
        | inr x ↦
            let h : left ≤ gas = ground (arith, within, i.gas_left, x) in
            rw (x, i.returned) (Acts-after i.run h next)
      ]

  -- Every such interpreter, with calls of calls down to the deepest level, acts on the state by the
  -- methods of a StateDB, and does not add gas.
  pub machine-RunLaw :
      (base : Evm Trie) (program : Bool → Contract → List ℕ → Script Trie) (levels : ℕ)
      → RunLaw (machine base program levels)
  unfolding machine
  machine-RunLaw base program zero = record {
    acts = λ read_only c input s r. done;
    falls = λ read_only c input s r. omega arith;
  }
  machine-RunLaw base program (suc levels) =
      let deeper = machine base program levels in
      let law = machine-RunLaw base program levels in
      record {
        acts = λ read_only c input s r.
            (perform-Acts deeper law (program read_only c input) c.gas s r).run;
        falls = λ read_only c input s r.
            (perform-Acts deeper law (program read_only c input) c.gas s r).falls;
      }
