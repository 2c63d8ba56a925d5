-- ===== src/State/Tests.antt =====
-- core/state at concrete states.
use kkchain.Base.{some, ◌>>=◌, ◌≡◌, refl, pos, ◌+ℤ◌, ◌-ℤ◌, drop_last}
use kkchain.State.Types.{StateDb}
use kkchain.State.Object.{is_empty, object_code, get_state_object_value, get_trie}
use kkchain.State.Store.{
  get_state_object, get_or_new_state_object, create_object, replace_object, create_account,
}
use kkchain.State.Methods.{
  add_balance, set_state, suicide, add_log, sub_balance, add_object_balance, change_balance,
  sub_object_balance, change_state,
}
use kkchain.State.Getters.{get_balance, get_nonce, get_state}
use kkchain.State.Revert.{
  snapshot, revert_to_snapshot, find_revision, revert_journal, revert_rounds, revert_entry,
}
use kkchain.State.Lifecycle.{fresh_state, fresh_state-Inv}
use kkchain.State.Sample.{PlainTrie, plain, funded}
use kkchain.State.World.{world}
use kkchain.State.Invariant.{Inv}
use kkchain.State.Step.{Step}
use kkchain.State.Steps.{call, call-Step, adds_balance, creates, suicides, sets_state}
use kkchain.State.Snapshots.{done, calls, Restored, revert_to_snapshot-restores}
use kkchain.State.Types.{balance_change}
use kkchain.State.Object.{big_zero}
use kkchain.State.World.{undo}
use kkchain.State.Undo.{world-revert_entry}
use kkchain.State.Balances.{balance_at, balance_at-add_balance, balance_at-sub_balance}
use kkchain.State.Answers.{field, getters_answer}

program : Unit {0}
unfolding get_state_object get_or_new_state_object create_object replace_object create_account
    get_balance get_state fresh_state add_balance sub_balance set_state suicide add_log snapshot
    revert_to_snapshot find_revision revert_journal revert_rounds revert_entry object_code is_empty
    get_trie get_state_object_value call ◌+ℤ◌ ◌-ℤ◌ drop_last get_nonce add_object_balance
    change_balance sub_object_balance change_state
program = tt

paid : (get_balance (call (adds_balance 1 (pos 5)) funded) 1).1 ≡ pos 15
unfolding program
paid = refl

-- A created account, an overwritten one, a self-destruct and a nested revert.
abbrev block_state : StateDb PlainTrie
block_state =
    call (suicides 1) (
      call (sets_state 2 7 9)
        (call (creates 1) (call (adds_balance 2 (pos 5)) (snapshot funded).0)))

restored_balance :
    (revert_to_snapshot block_state 0 >>= λ s. some (get_balance s 1).1) ≡ some (pos 10)
unfolding program
restored_balance = refl

revert_to_snapshot-restores_example :
    (u : StateDb PlainTrie) × (revert_to_snapshot block_state (snapshot funded).1 ≡ some u)
    × Restored funded u
revert_to_snapshot-restores_example =
    revert_to_snapshot-restores funded block_state (fresh_state-Inv plain _)
      (unfold fresh_state in tt)
      (calls (adds_balance 2 (pos 5))
        (calls (creates 1) (calls (sets_state 2 7 9) (calls (suicides 1) done))))

call-Step_example : Step funded (call (creates 1) funded)
call-Step_example = call-Step (creates 1) funded (fresh_state-Inv plain _)

funded-Inv : Inv funded
funded-Inv = fresh_state-Inv plain _

world-revert_entry_example :
    (revert_entry (balance_change 1 (pos 3)) funded >>= λ t. some (world t))
    ≡ undo plain funded.trie (balance_change 1 (pos 3)) (world funded)
world-revert_entry_example =
    unfold fresh_state in world-revert_entry (balance_change 1 (pos 3)) funded funded-Inv

getters_answer_example :
    (get_balance funded 1).1 ≡ field big_zero (λ w. w.balance) ((world funded).accounts 1)
getters_answer_example = (getters_answer funded 1 funded-Inv).0

balance_at-add_balance_example :
    balance_at (world (add_balance funded 1 (pos 5))) 1 ≡ balance_at (world funded) 1 +ℤ pos 5
balance_at-add_balance_example = balance_at-add_balance funded 1 (pos 5) funded-Inv 1

balance_at-sub_balance_example :
    balance_at (world (sub_balance funded 1 (pos 5))) 1 ≡ balance_at (world funded) 1 -ℤ pos 5
balance_at-sub_balance_example = balance_at-sub_balance funded 1 (pos 5) funded-Inv 1
