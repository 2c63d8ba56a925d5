-- ===== src/Consensus/Seal.antt =====
-- `verifySeal` and `mine` of consensus/pow/pow.go. The hashes of keccak and ethash are parameters. A
-- thread that mines tries so many nonces before it is told to stop; the channels and the dataset's
-- memory are left out.
use kkchain.Base.{
  ℕ, zero, suc, ◌+◌, ◌/◌, ◌%◌, ◌^◌, List, Option, none, some, Bool, true, false, not, ◌&&◌, ◌==◌,
  if◌then◌else◌, ℤ, pos, negsuc, ◌-ℤ◌, ltb_ℤ, eqb_ℤ, uint64_of,
}
use kkchain.Consensus.Difficulty.{Header}

pub data Mode : Type 0 where
  normal shared test fake full_fake : Mode

-- An `Ethash` by its mode, the number of the block that a fake one refuses, and the engine that it
-- shares, if any.
pub data Ethash : Type 0 where
  alone : Mode → ℕ → Ethash
  sharing : Mode → ℕ → Ethash → Ethash

pub data PowError : Type 0 where
  unknown_ancestor zero_block_time wrong_difficulty invalid_gas_limit invalid_gas_used : PowError
  invalid_number invalid_difficulty invalid_mix_digest invalid_pow : PowError

-- What `HashNoNonce` hashes: the header without the seal.
pub record Work : Type 0 where
  pub parent_hash : ℕ
  pub miner : ℕ
  pub roots : ℕ × ℕ × ℕ
  pub bloom : List ℕ
  pub difficulty : ℤ
  pub number : ℤ
  pub gas_limit : ℕ
  pub gas_used : ℕ
  pub time : ℤ
  pub extra : List ℕ

-- The hashes: of a header, of what it seals, and the digest and result of ethash for a block
-- number, a hash and a nonce, from the dataset or from the cache.
pub record Hashes : Type 0 where
  pub header_hash : Header → ℕ
  pub work_hash : Work → ℕ
  pub generated : ℕ → Bool
  pub full : ℕ → ℕ → ℕ → ℕ × ℕ
  pub light : Mode → ℕ → ℕ → ℕ → ℕ × ℕ

abbrev pub work_of : Header → Work
work_of h = record {
  parent_hash = h.parent_hash;
  miner = h.miner;
  roots = (h.state_root, h.tx_root, h.receipt_root);
  bloom = h.bloom;
  difficulty = h.difficulty;
  number = h.number;
  gas_limit = h.gas_limit;
  gas_used = h.gas_used;
  time = h.time;
  extra = h.extra;
}

-- `HashNoNonce`
unfoldable pub hash_no_nonce : Hashes → Header → ℕ
hash_no_nonce k h = k.work_hash (work_of h)

-- 2^256 divided by the difficulty, as `big.Int.Div` does; a difficulty of 0 panics before.
unfoldable pub target_of : ℤ → ℤ
target_of (pos d) = pos (2 ^ 256 / d)
target_of (negsuc d) = pos 0 -ℤ pos (2 ^ 256 / suc d)

abbrev pub is_fake : Mode → Bool
is_fake fake = true
is_fake full_fake = true
is_fake _ = false

-- The digest and the result against the header.
unfoldable pub check_pow : Header → ℕ × ℕ → Option PowError
unfolding target_of
check_pow h (digest, result) =
    if not (h.mix_digest == digest)
    then some invalid_mix_digest
    else if ltb_ℤ (target_of h.difficulty) (pos result)
    then some invalid_pow
    else none

-- The part of `verifySeal` that computes the proof of work.
unfoldable pub verify_pow : Hashes → Mode → Header → Bool → Option PowError
unfolding check_pow hash_no_nonce
verify_pow k mode h fulldag =
    let number = uint64_of h.number in
    let hash = hash_no_nonce k h in
    if not (ltb_ℤ (pos 0) h.difficulty)
    then some invalid_difficulty
    else check_pow h (
        if fulldag && k.generated number
        then k.full number hash h.nonce
        else k.light mode number hash h.nonce)

abbrev pub verify_fake : ℕ → Header → Option PowError
verify_fake fail h = if fail == uint64_of h.number then some invalid_pow else none

-- `verifySeal`; `none` is a valid seal.
unfoldable pub verify_seal : Hashes → Ethash → Header → Bool → Option PowError
unfolding verify_pow
verify_seal k (alone mode fail) h fulldag =
    if is_fake mode then verify_fake fail h else verify_pow k mode h fulldag
verify_seal k (sharing mode fail e) h fulldag =
    let rest = verify_seal k e h fulldag in if is_fake mode then verify_fake fail h else rest

-- The search of `mine` over so many nonces.
unfoldable pub mine_loop : Hashes → Header → ℕ → ℕ → Option Header
unfolding target_of hash_no_nonce
mine_loop k h zero nonce = none
mine_loop k h (suc attempts) nonce =
    let (digest, result) = k.full (uint64_of h.number) (hash_no_nonce k h) nonce in
    let rest = mine_loop k h attempts ((nonce + 1) % (2 ^ 64)) in
    if not (ltb_ℤ (target_of h.difficulty) (pos result))
    then some (record h { nonce = nonce; mix_digest = digest })
    else rest

-- `mine`; the outer `none` is the panic of a division by 0.
unfoldable pub mine : Hashes → Header → ℕ → ℕ → Option (Option Header)
unfolding mine_loop
mine k h attempts seed =
    if eqb_ℤ h.difficulty (pos 0) then none else some (mine_loop k h attempts seed)
