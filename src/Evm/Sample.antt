-- ===== src/Evm/Sample.antt =====
-- An EVM for the tests: its programs ask for the size of a code, move value by a call one level deeper,
-- and fail on an input.
use kkchain.Base.{ℕ, ◌+◌, List, [], ◌∷◌, none, some, Bool, false, pos, arith}
use kkchain.State.Lifecycle.{fresh_state, fresh_state-Inv}
use kkchain.State.Sample.{PlainTrie, plain, funded}
use kkchain.State.Steps.{gets_code_size, sets_state}
use kkchain.Evm.Defs.{Contract, Evm, failure}
use kkchain.Evm.Outcome.{RunLaw, Ready}
use kkchain.Evm.Machine.{Script, ends, uses, acts_by, enters, by_call, machine, machine-RunLaw}

abbrev bare : Evm PlainTrie
bare = record {
  coinbase = 8;
  depth = 0;
  no_recursion = false;
  is_precompiled = λ _. false;
  empty_code_hash = 0;
  keccak = λ _. 0;
  create_address = λ a n. a + n;
  runs = λ read_only c input s. record { state = s; gas = c.gas; output = []; error = none };
}

abbrev program : Bool → Contract → List ℕ → Script PlainTrie
program read_only c input = uses 1 (
    acts_by (gets_code_size 3) (λ s. enters 40 30 (omega arith) (by_call c.self 3 [] (pos 1)) (λ r.
      acts_by (sets_state c.self 7 r.gas)
        (λ s'. ends [] (elim input [ [] ↦ none | b ∷ _ ↦ some (failure b) ])))))

abbrev pub sample : Evm PlainTrie
sample = machine bare program 1025

pub sample-RunLaw : RunLaw sample
sample-RunLaw = machine-RunLaw bare program 1025

pub funded-Ready : Ready funded
funded-Ready = record { inv = fresh_state-Inv plain _; below = unfold fresh_state in tt }
