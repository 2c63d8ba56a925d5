-- ===== src/Transition/Settle.antt =====
-- The refund and the fees after the run of a message, of core/state_transition.go.
use kkchain.Base.{
  ℕ, ◌+◌, ◌-◌, ◌%◌, ◌^◌, ◌≤◌, List, Option, none, some, Bool, Bool-cases, bind_some, ◌≡◌, refl, ap,
  sym, ◌∙◌, inl, inr, arith, pos, ◌*ℤ◌,
}
use kkchain.State.Types.{StateDb}
use kkchain.State.Methods.{add_balance}
use kkchain.State.Steps.{call, adds_balance}
use kkchain.State.Snapshots.{Exec, done, calls}
use kkchain.Evm.Defs.{insufficient_balance, Evm, Called}
use kkchain.Evm.Outcome.{Exec-append}
use kkchain.Transition.Defs.{
  TransitionError, vm_error, Message, Transition, Finished, max_uint64, sub_gas, is_failed,
  is_insufficient, gas_used, capped_refund, refund_gas, stopped, pay_fees, settle,
}
use kkchain.Transition.Gas.{add_gas-sub_gas}

module _ {Trie : Type 0} where
  -- A transition with some of the gas it bought, and the rest of the pool.
  pub record Bought (pool limit : ℕ) (t : Transition Trie) : Type 0 where
    pub initial : t.initial_gas ≡ limit
    pub left : t.gas ≤ limit
    pub taken : sub_gas pool limit ≡ some t.pool
    pub small : limit ≤ max_uint64
    pub pool_small : pool ≤ max_uint64

  -- A transition returns, acts on the state by its methods, and when it returns no error, the pool
  -- has less by the used gas, which is at most the limit.
  pub record Settles (s : StateDb Trie) (pool limit : ℕ) (o : Option (Finished Trie)) : Type 0 where
    pub result : Finished Trie
    pub returned : o ≡ some result
    pub run : Exec s result.after.state
    pub paid :
        result.error ≡ none
        → (result.used_gas ≤ limit) × (result.after.pool ≡ pool - result.used_gas)

  pub stop :
      (s : StateDb Trie) (pool limit : ℕ) (t : Transition Trie) (e : TransitionError)
      → Exec s t.state
      → Settles s pool limit (some (stopped t e))
  stop s pool limit t e p = record {
    result = stopped t e;
    returned = refl;
    run = p;
    paid = λ x. cc;
  }

  gas_used_lem :
      (t : Transition Trie)
      → t.gas ≤ t.initial_gas
      → t.initial_gas ≤ max_uint64
      → gas_used t ≡ t.initial_gas - t.gas
  unfolding gas_used
  gas_used_lem t h k = ground arith

  -- The refund leaves the used gas at least 0.
  capped_refund_le :
      (t : Transition Trie)
      → t.gas ≤ t.initial_gas
      → t.initial_gas ≤ max_uint64
      → t.gas + capped_refund t ≤ t.initial_gas
  unfolding capped_refund
  capped_refund_le t h k = ground (arith, gas_used_lem t h k)

  pay_fees-Settles :
      (evm : Evm Trie) (m : Message) (output : List ℕ) (failed : Bool) (s : StateDb Trie) (pool : ℕ)
      (t : Transition Trie)
      → Exec s t.state
      → Bought pool m.gas t
      → Settles s pool m.gas (pay_fees evm m output failed t)
  unfolding pay_fees refund_gas call
  pay_fees-Settles evm m output failed s pool t p b =
      let gas = (t.gas + capped_refund t) % (2 ^ 64) in
      let fits : gas ≤ m.gas = omega (
        arith,
        b.initial,
        b.left,
        b.small,
        capped_refund_le t (omega (arith, b.initial, b.left)) (omega (arith, b.initial, b.small)),
      ) in
      let put = add_gas-sub_gas pool m.gas gas t.pool b.pool_small b.taken fits in
      let t' : Transition Trie = record t {
        state = add_balance t.state m.sender (pos gas *ℤ m.gas_price);
        pool = pool - (m.gas - gas);
        gas = gas;
      } in
      let used : gas_used t' ≡ m.gas - gas =
        gas_used_lem t' (omega (arith, b.initial, fits)) (omega (arith, b.initial, b.small))
        ∙ ap (λ (n : ℕ). n - gas) b.initial in
      record {
        result = record {
          after = record t' {
            state = add_balance t'.state evm.coinbase (pos (gas_used t') *ℤ m.gas_price);
          };
          output = output;
          used_gas = gas_used t';
          failed = failed;
          error = none;
        };
        returned = bind_some _ (bind_some _ put refl) refl;
        run = Exec-append p (
            calls (adds_balance m.sender (pos gas *ℤ m.gas_price))
              (calls (adds_balance evm.coinbase (pos (gas_used t') *ℤ m.gas_price)) done));
        paid = λ _. (omega (arith, used), ap (λ (n : ℕ). pool - n) (sym used));
      }

  pub settle-Settles :
      (evm : Evm Trie) (m : Message) (s : StateDb Trie) (pool : ℕ) (t : Transition Trie)
      (r : Called Trie)
      → Exec s r.state
      → r.gas ≤ m.gas
      → Bought pool m.gas t
      → Settles s pool m.gas (settle evm m t r)
  unfolding settle
  settle-Settles evm m s pool t r p h b =
      let t' : Transition Trie = record t { state = r.state; gas = r.gas } in
      let b' : Bought pool m.gas t' = record {
        initial = b.initial;
        left = h;
        taken = b.taken;
        small = b.small;
        pool_small = b.pool_small;
      } in
      let short = stop s pool m.gas t' (vm_error insufficient_balance) p in
      let paid = pay_fees-Settles evm m r.output (is_failed r.error) s pool t' p b' in
      elim (Bool-cases (is_insufficient r.error)) [ inl i ↦ simp i short | inr i ↦ simp i paid ]
