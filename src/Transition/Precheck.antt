-- ===== src/Transition/Precheck.antt =====
-- The checks before a transaction runs, and the purchase of its gas.
use kkchain.Base.{
  ℕ, ◌≤◌, Option, none, some, ltb, Bool-cases, ◌≡◌, refl, ◌∙◌, inl, inr, arith, ℤ, pos, ◌*ℤ◌, ltb_ℤ,
}
use kkchain.State.Types.{StateDb}
use kkchain.State.Getters.{get_balance, get_nonce}
use kkchain.State.World.{world}
use kkchain.State.Steps.{call, gets_balance, gets_nonce, subs_balance}
use kkchain.State.Snapshots.{Exec, done, calls}
use kkchain.Evm.Outcome.{Exec-append, world-get_nonce, world-get_balance}
use kkchain.Transition.Defs.{
  TransitionError, insufficient_balance_for_gas, gas_limit_reached, nonce_too_high, nonce_too_low,
  Message, Transition, max_uint64, sub_gas, bought, buy_gas, pre_check,
}

module _ {Trie : Type 0} where
  -- A refused message changes neither the world nor the gas; an accepted one has its gas, taken
  -- from the pool.
  pub record Checked (m : Message) (t : Transition Trie)
      (r : Transition Trie × Option TransitionError) : Type 0 where
    pub run : Exec t.state r.0.state
    pub refused :
        (e : TransitionError)
        → r.1 ≡ some e
        → (world r.0.state ≡ world t.state) × (r.0.pool ≡ t.pool) × (r.0.gas ≡ t.gas)
    pub accepted :
        r.1 ≡ none
        → (r.0.gas ≡ m.gas) × (r.0.initial_gas ≡ m.gas) × (sub_gas t.pool m.gas ≡ some r.0.pool)

  refuse :
      (m : Message) (t : Transition Trie) (s : StateDb Trie) (e : TransitionError)
      → Exec t.state s
      → world s ≡ world t.state
      → Checked m t (record t { state = s }, some e)
  refuse m t s e p w = record { run = p; refused = λ _ _. (w, refl, refl); accepted = λ x. cc }

  bought-Checked :
      (m : Message) (t : Transition Trie) (cost : ℤ) (s : StateDb Trie) (left : Option ℕ)
      → sub_gas t.pool m.gas ≡ left
      → t.gas ≡ 0
      → m.gas ≤ max_uint64
      → Exec t.state s
      → world s ≡ world t.state
      → Checked m t (bought m (record t { state = s }) cost left)
  unfolding call
  bought-Checked m t cost s none e z h p w = refuse m t s gas_limit_reached p w
  bought-Checked m t cost s (some pool) e z h p w = record {
    run = Exec-append p (calls (subs_balance m.sender cost) done);
    refused = λ x y. cc;
    accepted = λ _. (omega (arith, z, h), refl, e);
  }

  buy_gas-Checked :
      (m : Message) (t : Transition Trie) (s : StateDb Trie)
      → t.gas ≡ 0
      → m.gas ≤ max_uint64
      → Exec t.state s
      → world s ≡ world t.state
      → Checked m t (buy_gas m (record t { state = s }))
  unfolding buy_gas call
  buy_gas-Checked m t s z h p w =
      let s1 = (get_balance s m.sender).0 in
      let cost = pos m.gas *ℤ m.gas_price in
      let p1 : Exec t.state s1 = Exec-append p (calls (gets_balance m.sender) done) in
      let w1 = world-get_balance s m.sender ∙ w in
      let poor = refuse m t s1 insufficient_balance_for_gas p1 w1 in
      let paid = bought-Checked m t cost s1 _ refl z h p1 w1 in
      elim (Bool-cases (ltb_ℤ (get_balance s m.sender).1 cost)) [
        | inl l ↦ rw l poor
        | inr l ↦ rw l paid
      ]

  -- For a message with a uint64 of gas and a transition without gas: a message that preCheck
  -- refuses changes neither the world nor the gas pool nor the gas; after one that it accepts the
  -- transition has the gas of the message, and the pool that much less, which it had.
  pub pre_check-Checked :
      (m : Message) (t : Transition Trie)
      → t.gas ≡ 0
      → m.gas ≤ max_uint64
      → Checked m t (pre_check m t)
  unfolding pre_check call
  pre_check-Checked m t z h =
      let s = (get_nonce t.state m.sender).0 in
      let p : Exec t.state s = calls (gets_nonce m.sender) done in
      let w = world-get_nonce t.state m.sender in
      let high = refuse m t s nonce_too_high p w in
      let low = refuse m t s nonce_too_low p w in
      let direct = buy_gas-Checked m t t.state z h done refl in
      let fine = buy_gas-Checked m t s z h p w in
      elim (Bool-cases m.check_nonce) [
        | inr c ↦ simp c direct
        | inl c ↦ elim (Bool-cases (ltb (get_nonce t.state m.sender).1 m.nonce)) [
          | inl x ↦ simp (c, x) high
          | inr x ↦ elim (Bool-cases (ltb m.nonce (get_nonce t.state m.sender).1)) [
            | inl y ↦ simp (c, x, y) low
            | inr y ↦ simp (c, x, y) fine
          ]
        ]
      ]
