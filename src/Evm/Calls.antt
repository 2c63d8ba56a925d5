-- ===== src/Evm/Calls.antt =====
-- The entry points `Call`, `CallCode`, `DelegateCall` and `StaticCall` of core/vm/evm.go.
use kkchain.Base.{
  ℕ, List, [], Option, none, some, Bool, true, false, not, ◌&&◌, ltb, Bool-cases, refl, inl, inr,
  arith, ℤ,
}
use kkchain.State.Types.{StateDb}
use kkchain.State.Object.{is_zero, big_zero}
use kkchain.State.Store.{create_account}
use kkchain.State.Getters.{exist, get_code_hash, get_code}
use kkchain.State.Revert.{snapshot}
use kkchain.State.Steps.{call, gets_code, creates}
use kkchain.State.Snapshots.{Exec, done, calls, takes_snapshot}
use kkchain.Evm.Defs.{
  VmError, depth_limit, insufficient_balance, Contract, Evm, Called, call_create_depth,
  can_transfer, transfer, returns, run_code, new_contract, enter_call, call_account, guarded,
  call_contract, call_code, delegate_call, static_call,
}
use kkchain.Evm.Outcome.{
  RunLaw, Ready, snapshot-Ready, Outcome, Exec-append, Exec-Ready, exist-Exec, get_code_hash-Exec,
  can_transfer-Exec, world-can_transfer, transfer-Exec, returns-Outcome, Outcome-after,
  finish_call-Outcome,
}

module _ {Trie : Type 0} (evm : Evm Trie) (law : RunLaw evm) where
  -- Running code under a snapshot, after some calls.
  run_code-Outcome :
      (read_only : Bool) (c : Contract) (addr : ℕ) (input : List ℕ) (s t : StateDb Trie)
      → Ready s
      → Exec (snapshot s).0 t
      → Outcome s c.gas (run_code evm read_only c addr input (snapshot s).1 t)
  unfolding run_code call
  run_code-Outcome read_only c addr input s t ready p =
      let t1 = (get_code_hash t addr).0 in
      let c' = record c {
        code_hash = (get_code_hash t addr).1;
        code = (get_code t1 addr).1;
        code_addr = addr;
      } in
      let t2 = (get_code t1 addr).0 in
      let before : Exec (snapshot s).0 t2 =
        Exec-append p (Exec-append (get_code_hash-Exec t addr) (calls (gets_code addr) done)) in
      finish_call-Outcome s (evm.runs read_only c' input t2) c.gas ready
        (Exec-append before
          (law.acts read_only c' input t2 (Exec-Ready before (snapshot-Ready s ready))))
        (law.falls read_only c' input t2 (Exec-Ready before (snapshot-Ready s ready)))

  call_account-Outcome :
      (caller addr : ℕ) (input : List ℕ) (gas : ℕ) (value : ℤ) (s : StateDb Trie)
      → Ready s
      → Outcome s gas (call_account evm caller addr input gas value (snapshot s))
  unfolding call_account enter_call call
  call_account-Outcome caller addr input gas value s ready =
      let s1 = (exist (snapshot s).0 addr).0 in
      let p = exist-Exec (snapshot s).0 addr in
      let enter = λ (t : StateDb Trie) (q : Exec s1 t).
        run_code-Outcome false (new_contract caller addr value gas) addr input s
          (transfer t caller addr value) ready
          (Exec-append p (Exec-append q (transfer-Exec t caller addr value))) in
      let idle : Outcome s gas (returns s1 gas none) = record {
        result = record { state = s1; output = []; gas = gas; error = none };
        returned = refl;
        run = takes_snapshot p;
        gas_left = omega arith;
        undone = λ e x. cc;
      } in
      elim (Bool-cases (exist (snapshot s).0 addr).1) [
        | inl f ↦ rw f (enter s1 done)
        | inr f ↦ elim (Bool-cases (not (evm.is_precompiled addr) && is_zero value)) [
          | inl z ↦ rw (f, z) idle
          | inr z ↦ rw (f, z) (enter (create_account s1 addr) (calls (creates addr) done))
        ]
      ]

  guarded-Outcome :
      (s : StateDb Trie) (gas : ℕ) (rest : Option (Called Trie))
      → Outcome s gas rest
      → Outcome s gas (guarded evm s gas rest)
  guarded-Outcome s gas rest h =
      let now = λ (e : Option VmError). returns-Outcome s s gas gas e done refl (omega arith) in
      elim (Bool-cases (evm.no_recursion && ltb 0 evm.depth)) [
        | inl n ↦ rw n (now none)
        | inr n ↦ elim (Bool-cases (ltb call_create_depth evm.depth)) [
          | inl d ↦ rw (n, d) (now (some depth_limit))
          | inr d ↦ rw (n, d) h
        ]
      ]

  too_poor :
      (s : StateDb Trie) (caller gas : ℕ) (value : ℤ)
      → Outcome s gas (returns (can_transfer s caller value).0 gas (some insufficient_balance))
  too_poor s caller gas value =
      returns-Outcome s (can_transfer s caller value).0 gas gas _ (can_transfer-Exec s caller value)
        (world-can_transfer s caller value) (omega arith)

  -- From a well-formed state, Call does not panic, acts on the state by its methods, leaves at most
  -- the gas it was given, and when it returns an error the world is as it was before. Assumed:
  -- in a state in which a call can start, `run` acts on the state by its methods and does not add
  -- gas.
  pub call_contract-Outcome :
      (s : StateDb Trie) (caller addr : ℕ) (input : List ℕ) (gas : ℕ) (value : ℤ)
      → Ready s
      → Outcome s gas (call_contract evm s caller addr input gas value)
  unfolding call_contract
  call_contract-Outcome s caller addr input gas value ready =
      let s1 = (can_transfer s caller value).0 in
      let p = can_transfer-Exec s caller value in
      guarded-Outcome s gas _ (elim (Bool-cases (can_transfer s caller value).1) [
        | inl t ↦ rw t (
            Outcome-after p (world-can_transfer s caller value)
              (call_account-Outcome caller addr input gas value s1 (Exec-Ready p ready)))
        | inr f ↦ rw f (too_poor s caller gas value)
      ])

  code_in_caller :
      (s : StateDb Trie) (caller addr : ℕ) (input : List ℕ) (gas : ℕ) (value : ℤ)
      → Ready s
      → Outcome s gas (call_code evm s caller addr input gas value)
  unfolding call_code
  code_in_caller s caller addr input gas value ready =
      let s1 = (can_transfer s caller value).0 in
      let p = can_transfer-Exec s caller value in
      guarded-Outcome s gas _ (elim (Bool-cases (can_transfer s caller value).1) [
        | inl t ↦ rw t (
            Outcome-after p (world-can_transfer s caller value) (
              run_code-Outcome false (new_contract caller caller value gas) addr input s1
                (snapshot s1).0 (Exec-Ready p ready) done))
        | inr f ↦ rw f (too_poor s caller gas value)
      ])

  -- The same as for Call holds for CallCode, DelegateCall and StaticCall: from a well-formed state
  -- none panics, each acts by the methods of the state and leaves at most its gas, and one that
  -- returns an error leaves the world as it was. Assumed: in a state in which a call can start,
  -- `run` acts on the state by its methods and does not add gas.
  pub code_calls-Outcome :
      (s : StateDb Trie) (caller addr : ℕ) (parent : Contract) (input : List ℕ) (gas : ℕ)
      (value : ℤ)
      → Ready s
      → Outcome s gas (call_code evm s caller addr input gas value)
        × Outcome s gas (delegate_call evm s parent addr input gas)
        × Outcome s gas (static_call evm s caller addr input gas)
  unfolding delegate_call static_call
  code_calls-Outcome s caller addr parent input gas value ready = (
    code_in_caller s caller addr input gas value ready,
    guarded-Outcome s gas _ (
        run_code-Outcome false
          (record (new_contract parent.self parent.self parent.value gas) {
            caller_address = parent.caller_address;
          })
          addr input s (snapshot s).0 ready done),
    guarded-Outcome s gas _ (
        run_code-Outcome true (new_contract caller addr big_zero gas) addr input s (snapshot s).0
          ready done),
  )
