-- ===== src/Transition/Tests.antt =====
-- A transaction, the checks before it and its gas at concrete values.
use kkchain.Base.{[], ◌∷◌, some, true, ◌≡◌, refl, pos, arith}
use kkchain.State.Sample.{PlainTrie, funded}
use kkchain.Evm.Sample.{sample, sample-RunLaw, funded-Ready}
use kkchain.Transition.Defs.{
  Message, Transition, non_zero_count, intrinsic_gas, pre_check, apply_message,
}
use kkchain.Transition.Gas.{intrinsic_gas_lem}
use kkchain.Transition.Precheck.{Checked, pre_check-Checked}
use kkchain.Transition.Settle.{Settles}
use kkchain.Transition.Run.{apply_message-Settles}

abbrev payment : Message
payment = record {
  sender = 1;
  recipient = some 2;
  gas_price = pos 0;
  gas = 500;
  value = pos 3;
  nonce = 4;
  check_nonce = true;
  data_bytes = 7 ∷ 0 ∷ [];
}

abbrev begun : Transition PlainTrie
begun = record { state = funded; pool = 1000; gas = 0; initial_gas = 0 }

intrinsic_gas_lem_example : intrinsic_gas (7 ∷ 0 ∷ []) true ≡ some 53072
unfolding non_zero_count
intrinsic_gas_lem_example = intrinsic_gas_lem (7 ∷ 0 ∷ []) true

pre_check-Checked_example : Checked payment begun (pre_check payment begun)
pre_check-Checked_example = pre_check-Checked payment begun refl (omega arith)

apply_message-Settles_example : Settles funded 1000 500 (apply_message sample payment funded 1000)
apply_message-Settles_example =
    apply_message-Settles sample payment funded 1000 sample-RunLaw funded-Ready (omega arith)
      (omega arith)
