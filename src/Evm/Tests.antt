-- ===== src/Evm/Tests.antt =====
-- The calls of the EVM with an interpreter that adds to a balance and spends gas.
use kkchain.Base.{[], ◌∷◌, ◌⊎◌, ◌≡◌, pos}
use kkchain.State.Types.{StateDb}
use kkchain.State.Sample.{PlainTrie, funded}
use kkchain.Evm.Defs.{
  new_contract, can_transfer, call_contract, call_code, delegate_call, static_call,
}
use kkchain.Evm.Create.{create_contract}
use kkchain.Evm.Sample.{sample, sample-RunLaw, funded-Ready}
use kkchain.Evm.Outcome.{Outcome}
use kkchain.Evm.Calls.{call_contract-Outcome, code_calls-Outcome}
use kkchain.Evm.Finish.{Created}
use kkchain.Evm.Creation.{bump_nonce, create_contract-returns}

call_contract-Outcome_example :
    Outcome funded 100 (call_contract sample funded 1 2 (7 ∷ []) 100 (pos 3))
call_contract-Outcome_example =
    call_contract-Outcome sample sample-RunLaw funded 1 2 (7 ∷ []) 100 (pos 3) funded-Ready

code_calls-Outcome_example :
    Outcome funded 100 (call_code sample funded 1 2 [] 100 (pos 3))
    × Outcome funded 100 (delegate_call sample funded (new_contract 1 2 (pos 3) 100) 2 [] 100)
    × Outcome funded 100 (static_call sample funded 1 2 [] 100)
code_calls-Outcome_example =
    code_calls-Outcome sample sample-RunLaw funded 1 2 (new_contract 1 2 (pos 3) 100) [] 100 (pos 3)
      funded-Ready

create_contract-returns_example :
    (back : StateDb PlainTrie) × (back ≡ funded
      ⊎ back ≡ bump_nonce (can_transfer funded 1 (pos 3)).0 1)
    × Created funded back 100 (create_contract sample funded 1 (7 ∷ []) 100 (pos 3) 5)
create_contract-returns_example =
    create_contract-returns sample sample-RunLaw funded 1 (7 ∷ []) 100 (pos 3) 5 funded-Ready
