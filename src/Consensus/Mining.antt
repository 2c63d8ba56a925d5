-- ===== src/Consensus/Mining.antt =====
-- `mine` of consensus/pow/pow.go: what it finds, and the check of its seals.
use kkchain.Base.{
  ℕ, zero, suc, ◌+◌, ◌%◌, ◌^◌, ◌<◌, none, some, Bool, true, false, ◌&&◌, ◌==◌, if◌then◌else◌,
  Bool-cases, ◌≡◌, refl, sym, subst, inl, inr, arith, pos, ltb_ℤ, uint64_of, some_inj,
}
use kkchain.Consensus.Difficulty.{Header}
use kkchain.Consensus.Seal.{
  Mode, Hashes, work_of, hash_no_nonce, target_of, check_pow, verify_pow, mine_loop,
}

-- The dataset and the cache give the same digest and result.
pub record Agree (k : Hashes) (mode : Mode) : Type 0 where
  pub same : (number hash nonce : ℕ) → k.light mode number hash nonce ≡ k.full number hash nonce

-- A header that mining returns: the one that was mined, with a seal.
pub record Sealed (k : Hashes) (h h' : Header) : Type 0 where
  pub nonce : ℕ
  pub header : h' ≡ record h {
    nonce = nonce;
    mix_digest = (k.full (uint64_of h.number) (hash_no_nonce k h) nonce).0;
  }
  pub hits :
      ltb_ℤ (target_of h.difficulty) (pos (k.full (uint64_of h.number) (hash_no_nonce k h) nonce).1)
      ≡ false

pub mine_loop-Sealed :
    (k : Hashes) (h h' : Header) (attempts nonce : ℕ)
    → mine_loop k h attempts nonce ≡ some h'
    → Sealed k h h'
unfolding mine_loop
mine_loop-Sealed k h h' zero nonce e = cc
mine_loop-Sealed k h h' (suc attempts) nonce e =
    let found = k.full (uint64_of h.number) (hash_no_nonce k h) nonce in
    elim (Bool-cases (ltb_ℤ (target_of h.difficulty) (pos found.1))) [
      | inl l ↦ mine_loop-Sealed k h h' attempts ((nonce + 1) % (2 ^ 64)) (simp l at e)
      | inr l ↦ record { nonce = nonce; header = sym (some_inj (simp l at e)); hits = l }
    ]

-- A sealed header passes the check of its seal.
pub Sealed-verify_pow :
    (k : Hashes) (mode : Mode) (h h' : Header) (fulldag : Bool)
    → Agree k mode
    → ltb_ℤ (pos 0) h.difficulty ≡ true
    → Sealed k h h'
    → verify_pow k mode h' fulldag ≡ none
unfolding verify_pow check_pow hash_no_nonce
Sealed-verify_pow k mode h h' fulldag a d s =
    let found = k.full (uint64_of h.number) (k.work_hash (work_of h)) s.nonce in
    let sealed = record h { nonce = s.nonce; mix_digest = found.0 } in
    let digest : (found.0 == found.0) ≡ true = ground arith in
    let read : (if fulldag && k.generated (uint64_of h.number)
          then found
          else k.light mode (uint64_of h.number) (k.work_hash (work_of h)) s.nonce)
        ≡ found =
      either _ found _ (a.same (uint64_of h.number) (k.work_hash (work_of h)) s.nonce) in
    subst (λ x. verify_pow k mode x fulldag ≡ none) (sym s.header)
      (rw (d, read, digest, s.hits) refl)
  where
    either : (b : Bool) (x y : ℕ × ℕ) → y ≡ x → (if b then x else y) ≡ x
    either true x y e = refl
    either false x y e = e

-- The header with a nonce and its digest.
abbrev sealed_with : Hashes → Header → ℕ → Header
sealed_with k h nonce = record h {
  nonce = nonce;
  mix_digest = (k.full (uint64_of h.number) (hash_no_nonce k h) nonce).0;
}

-- Mining finds a seal when one of the nonces that it tries hits the target.
pub mine_loop-finds :
    (k : Hashes) (h : Header) (attempts seed j : ℕ)
    → seed < 2 ^ 64
    → j < attempts
    → ltb_ℤ
        (target_of h.difficulty)
        (pos (k.full (uint64_of h.number) (hash_no_nonce k h) ((seed + j) % (2 ^ 64))).1)
      ≡ false
    → (h' : Header) × (mine_loop k h attempts seed ≡ some h')
unfolding mine_loop
mine_loop-finds k h zero seed j s l e = absurd (omega (arith, l))
mine_loop-finds k h (suc attempts) seed zero s l e =
    let here : (seed + 0) % (2 ^ 64) ≡ seed = omega (arith, s) in
    let hit =
      subst
        (λ n.
          ltb_ℤ (target_of h.difficulty) (pos (k.full (uint64_of h.number) (hash_no_nonce k h) n).1)
          ≡ false)
        here e in
    (sealed_with k h seed, rw hit refl)
mine_loop-finds k h (suc attempts) seed (suc j) s l e =
    let found = k.full (uint64_of h.number) (hash_no_nonce k h) seed in
    elim (Bool-cases (ltb_ℤ (target_of h.difficulty) (pos found.1))) [
      | inr x ↦ (sealed_with k h seed, rw x refl)
      | inl x ↦
          let next = (seed + 1) % (2 ^ 64) in
          let shift : (seed + suc j) % (2 ^ 64) ≡ (next + j) % (2 ^ 64) = omega arith in
          let later =
            subst
              (λ n.
                ltb_ℤ (target_of h.difficulty)
                  (pos (k.full (uint64_of h.number) (hash_no_nonce k h) n).1)
                ≡ false)
              shift e in
          let (h', r) =
            mine_loop-finds k h attempts next j (omega arith) (omega (arith, l)) later in
          (h', rw x r)
    ]
