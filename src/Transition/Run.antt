-- ===== src/Transition/Run.antt =====
-- A whole state transition of core/state_transition.go.
use kkchain.Base.{
  ℕ, ◌+◌, ◌-◌, ◌%◌, ◌^◌, ◌≤◌, Option, none, some, Bool, if◌then◌else◌, ltb, Bool-cases, ◌>>=◌,
  bind_some, ◌≡◌, refl, ap, sym, ◌∙◌, inl, inr, arith, subst, some_inj,
}
use kkchain.State.Types.{StateDb}
use kkchain.State.Methods.{set_nonce}
use kkchain.State.Getters.{get_nonce}
use kkchain.State.Steps.{call, gets_nonce, sets_nonce}
use kkchain.State.Snapshots.{Exec, done, calls}
use kkchain.Evm.Defs.{out_of_gas, Evm, Called}
use kkchain.Evm.Create.{create}
use kkchain.Evm.Outcome.{RunLaw, Ready, Exec-append, Exec-Ready}
use kkchain.Evm.Calls.{call_contract-Outcome}
use kkchain.Evm.Creation.{create_contract-returns}
use kkchain.Transition.Defs.{
  TransitionError, vm_error, Message, Transition, max_uint64, use_gas_of, run_message, run_with_gas,
  after_check, pre_check, transition_db, apply_message,
}
use kkchain.Transition.Precheck.{Checked, pre_check-Checked}
use kkchain.Transition.Settle.{Bought, Settles, stop, settle-Settles}

module _ {Trie : Type 0} where
  -- What running a message leaves.
  pub record RanWithin (s : StateDb Trie) (gas : ℕ) (o : Option (Called Trie)) : Type 0 where
    pub result : Called Trie
    pub returned : o ≡ some result
    pub run : Exec s result.state
    pub gas_left : result.gas ≤ gas

  run_message-within :
      (evm : Evm Trie) (law : RunLaw evm) (m : Message) (recipient : Option ℕ) (t : Transition Trie)
      → Ready t.state
      → RanWithin t.state t.gas (run_message evm m recipient t)
  unfolding run_message create call
  run_message-within evm law m none t ready =
      let p : Exec t.state (get_nonce t.state m.sender).0 = calls (gets_nonce m.sender) done in
      let (_, _, made) =
        create_contract-returns evm law (get_nonce t.state m.sender).0 m.sender m.data_bytes t.gas
          m.value (evm.create_address m.sender (get_nonce t.state m.sender).1)
          (Exec-Ready p ready) in
      record {
        result = made.result;
        returned = made.returned;
        run = Exec-append p made.run;
        gas_left = made.gas_left;
      }
  run_message-within evm law m (some recipient) t ready =
      let s1 = (get_nonce t.state m.sender).0 in
      let nonce = ((get_nonce t.state m.sender).1 + 1) % (2 ^ 64) in
      let s2 = set_nonce s1 m.sender nonce in
      let p : Exec t.state s2 =
        calls (gets_nonce m.sender) (calls (sets_nonce m.sender nonce) done) in
      let out =
        call_contract-Outcome evm law s2 m.sender recipient m.data_bytes t.gas m.value
          (Exec-Ready p ready) in
      record {
        result = out.result;
        returned = out.returned;
        run = Exec-append p out.run;
        gas_left = out.gas_left;
      }

  -- The gas bought, less the intrinsic gas.
  spend-Bought :
      (pool limit amount : ℕ) (t t' : Transition Trie)
      → Bought pool limit t
      → use_gas_of t amount ≡ some t'
      → Bought pool limit t' × (t'.state ≡ t.state)
  unfolding use_gas_of
  spend-Bought pool limit amount t t' b e = elim (Bool-cases (ltb t.gas amount)) [
    | inl l ↦ absurd (ground (arith, e, l))
    | inr l ↦
        let same : record t { gas = t.gas - amount } ≡ t' = some_inj (sym (ap some_if l) ∙ e) in
        subst (λ (u : Transition Trie). Bought pool limit u × (u.state ≡ t.state)) same
          (
            record {
              initial = b.initial;
              left = omega (arith, b.left);
              taken = b.taken;
              small = b.small;
              pool_small = b.pool_small;
            },
            refl,
          )
  ]
    where
      some_if : Bool → Option (Transition Trie)
      some_if x = if x then none else some (record t { gas = t.gas - amount })

  run_with_gas-Settles :
      (evm : Evm Trie) (law : RunLaw evm) (m : Message) (s : StateDb Trie) (pool : ℕ)
      (t : Transition Trie) (gas : Option ℕ)
      → Ready s
      → Exec s t.state
      → Bought pool m.gas t
      → Settles s pool m.gas (run_with_gas evm m t (gas >>= use_gas_of t))
  run_with_gas-Settles evm law m s pool t none ready p b =
      stop s pool m.gas t (vm_error out_of_gas) p
  run_with_gas-Settles evm law m s pool t (some gas) ready p b = go (use_gas_of t gas) refl
    where
      go :
          (o : Option (Transition Trie))
          → use_gas_of t gas ≡ o
          → Settles s pool m.gas (run_with_gas evm m t o)
      go none e = stop s pool m.gas t (vm_error out_of_gas) p
      go (some t') e =
          let (b', same) = spend-Bought pool m.gas gas t t' b e in
          let p' : Exec s t'.state = subst (Exec s) (sym same) p in
          let w = run_message-within evm law m m.recipient t' (Exec-Ready p' ready) in
          let out =
            settle-Settles evm m s pool t' w.result (Exec-append p' w.run)
              (omega (arith, w.gas_left, b'.left)) b' in
          record {
            result = out.result;
            returned = bind_some _ w.returned out.returned;
            run = out.run;
            paid = out.paid;
          }

  -- From a well-formed state and with a gas pool and a gas limit of 64 bits, ApplyMessage does not
  -- panic and acts on the state by its methods. Without an error, the used gas is at most the limit,
  -- and the pool has that much less. Assumed: in a state in which a call can start, `run`
  -- acts on the state by its methods and does not add gas.
  pub apply_message-Settles :
      (evm : Evm Trie) (m : Message) (s : StateDb Trie) (pool : ℕ)
      → RunLaw evm
      → Ready s
      → m.gas ≤ max_uint64
      → pool ≤ max_uint64
      → Settles s pool m.gas (apply_message evm m s pool)
  unfolding apply_message transition_db
  apply_message-Settles evm m s pool law ready h k =
      let t : Transition Trie = record { state = s; pool = pool; gas = 0; initial_gas = 0 } in
      let ok = pre_check-Checked m t refl h in go (pre_check m t).0 (pre_check m t).1 ok
    where
      go :
          (t' : Transition Trie) (e : Option TransitionError)
          → Checked m (record { state = s; pool = pool; gas = 0; initial_gas = 0 }) (t', e)
          → Settles s pool m.gas (after_check evm m (t', e))
      go t' (some e) ok = stop s pool m.gas t' e ok.run
      go t' none ok =
          let (g, i, e) = ok.accepted refl in
          run_with_gas-Settles evm law m s pool t' _ ready ok.run
            (record { initial = i; left = omega (arith, g); taken = e; small = h; pool_small = k })
