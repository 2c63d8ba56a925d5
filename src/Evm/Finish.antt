-- ===== src/Evm/Finish.antt =====
-- The end of `create` of core/vm/evm.go: the storing of the code, and the revert.
use kkchain.Base.{
  ℕ, ◌*◌, ◌%◌, ◌^◌, ◌≤◌, [], Option, none, some, Bool, true, false, ◌||◌, length, Bool-cases,
  bind_some, ◌≡◌, refl, ap, ◌∙◌, inl, inr, arith,
}
use kkchain.State.Types.{StateDb}
use kkchain.State.Revert.{snapshot}
use kkchain.State.World.{world}
use kkchain.State.Steps.{call, sets_code}
use kkchain.State.Snapshots.{
  Exec, done, calls, takes_snapshot, reverts, revert_to_snapshot-restores,
}
use kkchain.Evm.Defs.{VmError, Ran, Called, create_data_gas, use_gas, is_code_store, returns}
use kkchain.Evm.Create.{
  undoes, gas_kept, size_error, store_with, store_code, store_if_ran, finish_create,
}
use kkchain.Evm.Outcome.{Ready, Exec-append}

gas_kept_le : (e : Option VmError) (gas : ℕ) → gas_kept e gas ≤ gas
gas_kept_le none gas = omega arith
gas_kept_le (some e) gas = ground arith

pub use_gas_le : (gas amount left : ℕ) → use_gas gas amount ≡ some left → left ≤ gas
unfolding use_gas
use_gas_le gas amount left h = ground arith

undone_not :
    (oversized : Bool) (r : Option VmError) (e : VmError)
    → r ≡ some e
    → is_code_store e ≡ false
    → (oversized || undoes r) ≡ false
    → ⊥
undone_not oversized r e x c u = ground (arith, ap undoes x)

module _ {Trie : Type 0} where
  -- A creation returns; it acts by the methods of a StateDB and leaves at most its gas. On an error
  -- other than that of the gas for storing the code, the world is `back`.
  pub record Created (s back : StateDb Trie) (gas : ℕ) (o : Option (Called Trie)) : Type 0 where
    pub result : Called Trie
    pub returned : o ≡ some result
    pub run : Exec s result.state
    pub gas_left : result.gas ≤ gas
    pub undone :
        (e : VmError)
        → result.error ≡ some e
        → is_code_store e ≡ false
        → world result.state ≡ world back

  pub Created-after :
      {s t back : StateDb Trie} {gas : ℕ} {o : Option (Called Trie)}
      → Exec s t
      → Created t back gas o
      → Created s back gas o
  Created-after p o = record {
    result = o.result;
    returned = o.returned;
    run = Exec-append p o.run;
    gas_left = o.gas_left;
    undone = o.undone;
  }

  pub Created-back :
      {s back back' : StateDb Trie} {gas : ℕ} {o : Option (Called Trie)}
      → world back ≡ world back'
      → Created s back gas o
      → Created s back' gas o
  Created-back w o = record {
    result = o.result;
    returned = o.returned;
    run = o.run;
    gas_left = o.gas_left;
    undone = λ e x k. o.undone e x k ∙ w;
  }

  pub returns-Created :
      (s t back : StateDb Trie) (gas gas' : ℕ) (e : Option VmError)
      → Exec s t
      → world t ≡ world back
      → gas' ≤ gas
      → Created s back gas (returns t gas' e)
  returns-Created s t back gas gas' e p w h = record {
    result = record { state = t; output = []; gas = gas'; error = e };
    returned = refl;
    run = p;
    gas_left = h;
    undone = λ _ _ _. w;
  }

  store_with-Exec :
      (addr : ℕ) (s : StateDb Trie) (r : Ran Trie) (left : Option ℕ)
      → Exec s r.state
      → Exec s (store_with addr r left).state
  unfolding call
  store_with-Exec addr s r none p = p
  store_with-Exec addr s r (some gas) p = Exec-append p (calls (sets_code addr r.output) done)

  pub store_if_ran-Exec :
      (addr : ℕ) (oversized : Bool) (e : Option VmError) (s : StateDb Trie) (r : Ran Trie)
      → Exec s r.state
      → Exec s (store_if_ran addr oversized e r).state
  unfolding store_if_ran store_code
  store_if_ran-Exec addr false none s r p = store_with-Exec addr s r _ p
  store_if_ran-Exec addr false (some e) s r p = p
  store_if_ran-Exec addr true e s r p = p

  store_with-gas :
      (addr : ℕ) (r : Ran Trie) (left : Option ℕ)
      → ((gas : ℕ) → left ≡ some gas → gas ≤ r.gas)
      → (store_with addr r left).gas ≤ r.gas
  store_with-gas addr r none h = omega arith
  store_with-gas addr r (some gas) h = h gas refl

  pub store_if_ran-gas :
      (addr : ℕ) (oversized : Bool) (e : Option VmError) (r : Ran Trie)
      → (store_if_ran addr oversized e r).gas ≤ r.gas
  unfolding store_if_ran store_code
  store_if_ran-gas addr false none r =
      store_with-gas addr r (use_gas r.gas ((length r.output * create_data_gas) % (2 ^ 64)))
        (use_gas_le r.gas ((length r.output * create_data_gas) % (2 ^ 64)))
  store_if_ran-gas addr false (some e) r = omega arith
  store_if_ran-gas addr true e r = omega arith

  pub finish_create-Created :
      (s : StateDb Trie) (oversized : Bool) (r : Ran Trie) (gas : ℕ)
      → Ready s
      → Exec (snapshot s).0 r.state
      → r.gas ≤ gas
      → Created s s gas (finish_create (snapshot s).1 oversized r)
  unfolding finish_create
  finish_create-Created s oversized r gas ready p h =
      let back = revert_to_snapshot-restores s r.state ready.inv ready.below p in
      elim (Bool-cases (oversized || undoes r.error)) [
        | inl u ↦ rw u (record {
          result = record {
            state = back.0;
            output = r.output;
            gas = gas_kept r.error r.gas;
            error = size_error oversized r.error;
          };
          returned = bind_some _ back.1 refl;
          run = reverts p back.1 done;
          gas_left = omega (arith, gas_kept_le r.error r.gas, h);
          undone = λ _ _ _. back.2.worlds;
        })
        | inr u ↦ rw u (record {
          result = record { state = r.state; output = r.output; gas = r.gas; error = r.error };
          returned = refl;
          run = takes_snapshot p;
          gas_left = h;
          undone = λ e x c. absurd (undone_not oversized r.error e x c u);
        })
      ]
