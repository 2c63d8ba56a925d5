-- ===== src/Consensus/Tests.antt =====
-- The proof of work over concrete headers and hashes, and the gas limit of a block.
use kkchain.Base.{
  ◌==◌, if◌then◌else◌, ◌+◌, ◌/◌, ◌≤◌, [], none, some, true, false, ◌≡◌, ◌↔◌, refl, arith, pos, ◌≤ℤ◌,
  ◌-ℤ◌, ◌+ℤ◌, div_ℤ, uint64_of,
}
use kkchain.Consensus.Difficulty.{
  Header, big_max, adjusted, with_bomb, period_count, calc_difficulty_frontier,
  calc_difficulty_frontier-mono,
}
use kkchain.Consensus.GasLimit.{min_gas_limit, calc_gas_limit, calc_gas_limit_lem}
use kkchain.Consensus.Seal.{
  Hashes, normal, alone, target_of, hash_no_nonce, mine_loop, mine, verify_seal,
}
use kkchain.Consensus.Mining.{mine_loop-finds}
use kkchain.Consensus.Header.{
  ChainReader, parent_number, initialize, verify_header, Follows, verify_header-accepts,
  verify_header-mine,
}

abbrev first_block : Header
first_block = record {
  parent_hash = 0;
  miner = 1;
  state_root = 0;
  tx_root = 0;
  receipt_root = 0;
  bloom = [];
  difficulty = pos 131072;
  number = pos 7;
  gas_limit = 8000000;
  gas_used = 0;
  time = pos 100;
  extra = [];
  mix_digest = 0;
  nonce = 0;
}

abbrev draft : Header
draft = record first_block { parent_hash = 5; number = pos 8; time = pos 120; difficulty = pos 0 }

abbrev prepared : Header
prepared = record draft { difficulty = pos 131072 }

abbrev hashes : Hashes
hashes = record {
  header_hash = λ h. 5;
  work_hash = λ w. 3;
  generated = λ n. true;
  full = λ number hash nonce. (hash + nonce, 11);
  light = λ mode number hash nonce. (hash + nonce, 11);
}

abbrev chain : ChainReader
chain = record { get_header = λ hash n. if n == 7 then some first_block else none }

calc_difficulty_frontier-mono_example :
    calc_difficulty_frontier 120 first_block ≤ℤ calc_difficulty_frontier 105 first_block
calc_difficulty_frontier-mono_example =
    calc_difficulty_frontier-mono 105 120 first_block (omega arith) (omega arith)

calc_gas_limit_lem_example :
    (min_gas_limit ≤ calc_gas_limit first_block)
    × (calc_gas_limit first_block ≤ 8000000 + 8000000 / 1024)
    × (8000000 ≤ calc_gas_limit first_block + 8000000 / 1024)
calc_gas_limit_lem_example =
    calc_gas_limit_lem first_block (omega arith) (omega arith) (omega arith)

mine_loop-finds_example : (h : Header) × (mine_loop hashes prepared 3 0 ≡ some h)
unfolding target_of
mine_loop-finds_example = mine_loop-finds hashes prepared 3 0 2 (omega arith) (omega arith) refl

abbrev sealed : Header
sealed = record prepared { nonce = 0; mix_digest = 3 }

initialized : initialize chain draft ≡ some prepared
unfolding initialize uint64_of calc_difficulty_frontier with_bomb adjusted period_count big_max
    div_ℤ ◌-ℤ◌ ◌+ℤ◌
initialized = refl

mined : mine hashes prepared 3 0 ≡ some (some sealed)
unfolding mine mine_loop target_of hash_no_nonce
mined = refl

next_number : draft.number -ℤ first_block.number ≡ pos 1
unfolding ◌-ℤ◌
next_number = refl

unknown : chain.get_header 5 (uint64_of sealed.number) ≡ none
unfolding uint64_of
unknown = refl

looked_up : chain.get_header 5 (parent_number draft) ≡ some first_block
unfolding uint64_of
looked_up = refl

verify_header-mine_example : verify_header chain hashes (alone normal 0) sealed ≡ none
verify_header-mine_example =
    verify_header-mine chain hashes normal 0 draft prepared sealed first_block 3 0 refl
      (record { same = λ _ _ _. refl }) looked_up refl next_number (omega arith) (omega arith)
      initialized mined

verify_header-accepts_example : (verify_header chain hashes (alone normal 0) sealed ≡ none) ↔ (
    (parent : Header) × (chain.get_header 5 (parent_number sealed) ≡ some parent)
    × Follows parent sealed
    × (verify_seal hashes (alone normal 0) sealed false ≡ none))
verify_header-accepts_example = verify_header-accepts chain hashes (alone normal 0) sealed unknown
