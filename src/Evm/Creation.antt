-- ===== src/Evm/Creation.antt =====
-- The creation of contracts: `create` and `Create` of core/vm/evm.go.
use kkchain.Base.{
  ℕ, ◌+◌, ◌%◌, ◌^◌, List, [], none, some, false, ◌&&◌, ltb, length, Bool-cases, ◌≡◌, refl, ◌∙◌, ◌⊎◌,
  inl, inr, arith, ℤ,
}
use kkchain.State.Types.{StateDb}
use kkchain.State.Store.{create_account}
use kkchain.State.Methods.{set_nonce}
use kkchain.State.Getters.{get_nonce, get_code_hash}
use kkchain.State.Revert.{snapshot}
use kkchain.State.World.{world}
use kkchain.State.Steps.{call, creates, sets_nonce, gets_nonce}
use kkchain.State.Snapshots.{Exec, done, calls, takes_snapshot}
use kkchain.Evm.Defs.{
  depth_limit, insufficient_balance, address_collision, Contract, Evm, call_create_depth,
  max_code_size, can_transfer, transfer, returns, new_contract,
}
use kkchain.Evm.Create.{store_if_ran, after_run, deploy, collides, create_for, create_contract}
use kkchain.Evm.Outcome.{
  RunLaw, Ready, snapshot-Ready, Exec-append, Exec-Ready, get_code_hash-Exec, can_transfer-Exec,
  world-can_transfer, world-get_nonce, transfer-Exec, world-get_code_hash,
}
use kkchain.Evm.Finish.{
  Created, Created-after, Created-back, returns-Created, store_if_ran-Exec, store_if_ran-gas,
  finish_create-Created,
}

module _ {Trie : Type 0} where
  -- The state with the nonce of the creator raised.
  unfoldable pub bump_nonce : StateDb Trie → ℕ → StateDb Trie
  bump_nonce s caller =
      set_nonce (get_nonce s caller).0 caller (((get_nonce s caller).1 + 1) % (2 ^ 64))

  module _ (evm : Evm Trie) (law : RunLaw evm) where
    after_run-Created :
        (s : StateDb Trie) (addr : ℕ) (c : Contract) (t : StateDb Trie)
        → Ready s
        → Exec (snapshot s).0 t
        → Created s s c.gas (after_run (snapshot s).1 addr (evm.runs false c [] t))
    unfolding after_run
    after_run-Created s addr c t ready p =
        let r = evm.runs false c [] t in
        let oversized = ltb max_code_size (length r.output) in
        finish_create-Created s oversized (store_if_ran addr oversized r.error r) c.gas ready
          (store_if_ran-Exec addr oversized r.error _ r
            (Exec-append p (law.acts false c [] t (Exec-Ready p (snapshot-Ready s ready)))))
          (omega (
            arith,
            store_if_ran-gas addr oversized r.error r,
            law.falls false c [] t (Exec-Ready p (snapshot-Ready s ready)),
          ))

    deploy-Created :
        (s : StateDb Trie) (caller : ℕ) (code : List ℕ) (gas : ℕ) (value : ℤ) (addr : ℕ)
        → Ready s
        → Created s s gas (deploy evm caller code gas value addr (snapshot s))
    unfolding deploy call
    deploy-Created s caller code gas value addr ready =
        let s1 = set_nonce (create_account (snapshot s).0 addr) addr 1 in
        let p : Exec (snapshot s).0 (transfer s1 caller addr value) =
          calls (creates addr) (calls (sets_nonce addr 1) (transfer-Exec s1 caller addr value)) in
        let idle : Created s s gas (returns (transfer s1 caller addr value) gas none) = record {
          result = record {
            state = transfer s1 caller addr value;
            output = [];
            gas = gas;
            error = none;
          };
          returned = refl;
          run = takes_snapshot p;
          gas_left = omega arith;
          undone = λ e x _. cc;
        } in
        elim (Bool-cases (evm.no_recursion && ltb 0 evm.depth)) [
          | inl n ↦ rw n idle
          | inr n ↦ rw n (
              after_run-Created s addr
                (record (new_contract caller addr value gas) {
                  code_hash = evm.keccak code;
                  code = some code;
                })
                _ ready p)
        ]

    bump_nonce-Exec : (s : StateDb Trie) (caller : ℕ) → Exec s (bump_nonce s caller)
    unfolding bump_nonce call
    bump_nonce-Exec s caller =
        calls (gets_nonce caller)
          (calls (sets_nonce caller (((get_nonce s caller).1 + 1) % (2 ^ 64))) done)

    create_for-Created :
        (s : StateDb Trie) (caller : ℕ) (code : List ℕ) (gas : ℕ) (value : ℤ) (addr : ℕ)
        → Ready s
        → Created s (bump_nonce s caller) gas (create_for evm s caller code gas value addr)
    unfolding create_for bump_nonce call
    create_for-Created s caller code gas value addr ready =
        let s2 = bump_nonce s caller in
        let s3 = (get_code_hash s2 addr).0 in
        let s4 = (get_nonce s3 addr).0 in
        let p : Exec s s4 =
          Exec-append (bump_nonce-Exec s caller)
            (Exec-append (get_code_hash-Exec s2 addr) (calls (gets_nonce addr) done)) in
        let w : world s4 ≡ world s2 = world-get_nonce s3 addr ∙ world-get_code_hash s2 addr in
        let taken = returns-Created s s4 s2 gas 0 (some address_collision) p w (omega arith) in
        let made = deploy-Created s4 caller code gas value addr (Exec-Ready p ready) in
        elim (Bool-cases (collides evm (get_nonce s3 addr).1 (get_code_hash s2 addr).1)) [
          | inl c ↦ rw c taken
          | inr c ↦ rw c (Created-after p (Created-back w made))
        ]

    -- From a well-formed state, a creation does not panic, acts on the state by its methods and
    -- leaves at most its gas. When it returns an error other than that of the gas for storing the
    -- code, the world is as it was before, or as it was with the nonce of the creator raised.
    -- Assumed: in a state in which a call can start, `run` acts on the state by its methods and does
    -- not add gas.
    pub create_contract-returns :
        (s : StateDb Trie) (caller : ℕ) (code : List ℕ) (gas : ℕ) (value : ℤ) (addr : ℕ)
        → Ready s
        → (back : StateDb Trie) × (back ≡ s
            ⊎ back ≡ bump_nonce (can_transfer s caller value).0 caller)
          × Created s back gas (create_contract evm s caller code gas value addr)
    unfolding create_contract
    create_contract-returns s caller code gas value addr ready =
        let s1 = (can_transfer s caller value).0 in
        let p = can_transfer-Exec s caller value in
        let deep = returns-Created s s s gas gas (some depth_limit) done refl (omega arith) in
        let poor =
          returns-Created s s1 s gas gas (some insufficient_balance) p
            (world-can_transfer s caller value) (omega arith) in
        let made =
          Created-after p (create_for-Created s1 caller code gas value addr (Exec-Ready p ready)) in
        elim (Bool-cases (ltb call_create_depth evm.depth)) [
          | inl d ↦ (s, inl refl, rw d deep)
          | inr d ↦ elim (Bool-cases (can_transfer s caller value).1) [
            | inl t ↦ (bump_nonce s1 caller, inr refl, rw (d, t) made)
            | inr f ↦ (s, inl refl, rw (d, f) poor)
          ]
        ]
