-- ===== src/Consensus/Header.antt =====
-- `Initialize` and `VerifyHeader` of consensus/pow/pow.go. The chain of headers is the parameter
-- `ChainReader`.
use kkchain.Base.{
  ℕ, ◌+◌, ◌-◌, ◌%◌, ◌^◌, ◌≤◌, Option, none, some, true, false, not, ◌↔◌, if◌then◌else◌, ltb,
  Bool-cases, Option-cases, ◌>>=◌, ◌≡◌, refl, ap, sym, subst, ◌∙◌, inl, inr, arith, ℤ, pos, ◌-ℤ◌,
  ◌≤ℤ◌, ltb_ℤ, eqb_ℤ, uint64_of, some_inj,
}
use kkchain.Consensus.Difficulty.{
  Header, minimum_difficulty, calc_difficulty_frontier, minimum-calc_difficulty_frontier,
}
use kkchain.Consensus.Seal.{
  Mode, Ethash, alone, PowError, unknown_ancestor, zero_block_time, wrong_difficulty,
  invalid_gas_limit, invalid_gas_used, invalid_number, Hashes, is_fake, verify_fake, verify_pow,
  verify_seal, mine, hash_no_nonce,
}
use kkchain.Consensus.Mining.{Agree, mine_loop-Sealed, Sealed-verify_pow}

-- `consensus.ChainReader`: a header by its hash and number
pub record ChainReader : Type 0 where
  pub get_header : ℕ → ℕ → Option Header

abbrev pub parent_number : Header → ℕ
parent_number h = (uint64_of h.number + 2 ^ 64 - 1) % (2 ^ 64)

-- `Initialize`; `none` is ErrUnknownAncestor.
unfoldable pub initialize : ChainReader → Header → Option Header
initialize chain h = chain.get_header h.parent_hash (parent_number h) >>= λ parent.
    some (record h { difficulty = calc_difficulty_frontier (uint64_of h.time) parent })

-- The checks against the parent.
unfoldable pub verify_child : Hashes → Ethash → Header → Option Header → Option PowError
verify_child k e h none = some unknown_ancestor
verify_child k e h (some parent) =
    if not (ltb_ℤ parent.time h.time)
    then some zero_block_time
    else if not (eqb_ℤ (calc_difficulty_frontier (uint64_of h.time) parent) h.difficulty)
    then some wrong_difficulty
    else if ltb 9223372036854775807 h.gas_limit
    then some invalid_gas_limit
    else if ltb h.gas_limit h.gas_used
    then some invalid_gas_used
    else if not (eqb_ℤ (h.number -ℤ parent.number) (pos 1))
    then some invalid_number
    else verify_seal k e h false

abbrev pub verify_unknown : ChainReader → Hashes → Ethash → Header → Option Header → Option PowError
verify_unknown chain k e h (some _) = none
verify_unknown chain k e h none =
    verify_child k e h (chain.get_header h.parent_hash (parent_number h))

-- `VerifyHeader`; `none` is a valid header.
unfoldable pub verify_header : ChainReader → Hashes → Ethash → Header → Option PowError
unfolding verify_child
verify_header chain k e h =
    verify_unknown chain k e h (chain.get_header (k.header_hash h) (uint64_of h.number))

-- What the checks ask of a header and its parent; the gas limit of the parent is not among it.
pub record Follows (parent h : Header) : Type 0 where
  pub later : ltb_ℤ parent.time h.time ≡ true
  pub difficulty : h.difficulty ≡ calc_difficulty_frontier (uint64_of h.time) parent
  pub gas_limit : h.gas_limit ≤ 9223372036854775807
  pub gas_used : h.gas_used ≤ h.gas_limit
  pub number : h.number -ℤ parent.number ≡ pos 1

eqb_ℤ-true : (a b : ℤ) → eqb_ℤ a b ≡ true → a ≡ b
eqb_ℤ-true a b h = ground (arith, h)

eqb_ℤ-refl : (a : ℤ) → eqb_ℤ a a ≡ true
eqb_ℤ-refl a = ground arith

not_none : (o : PowError) {P : Type 0} → some o ≡ none → P
not_none o e = cc

child_accepted :
    (k : Hashes) (e : Ethash) (h parent : Header)
    → verify_child k e h (some parent) ≡ none
    → Follows parent h × (verify_seal k e h false ≡ none)
unfolding verify_child
child_accepted k e h parent x = elim (Bool-cases (ltb_ℤ parent.time h.time)) [
  | inr a ↦ not_none _ (simp a at x)
  | inl a ↦
      let expected = calc_difficulty_frontier (uint64_of h.time) parent in
      elim (Bool-cases (eqb_ℤ expected h.difficulty)) [
        | inr b ↦ not_none _ (simp (a, b) at x)
        | inl b ↦ elim (Bool-cases (ltb 9223372036854775807 h.gas_limit)) [
          | inl c ↦ not_none _ (simp (a, b, c) at x)
          | inr c ↦ elim (Bool-cases (ltb h.gas_limit h.gas_used)) [
            | inl d ↦ not_none _ (simp (a, b, c, d) at x)
            | inr d ↦ elim (Bool-cases (eqb_ℤ (h.number -ℤ parent.number) (pos 1))) [
              | inr f ↦ not_none _ (simp (a, b, c, d, f) at x)
              | inl f ↦ (
                record {
                  later = a;
                  difficulty = sym (eqb_ℤ-true expected h.difficulty b);
                  gas_limit = ground (arith, c);
                  gas_used = ground (arith, d);
                  number = eqb_ℤ-true (h.number -ℤ parent.number) (pos 1) f;
                },
                simp (a, b, c, d, f) at x,
              )
            ]
          ]
        ]
      ]
]

accepts_child :
    (k : Hashes) (e : Ethash) (h parent : Header)
    → Follows parent h
    → verify_seal k e h false ≡ none
    → verify_child k e h (some parent) ≡ none
unfolding verify_child
accepts_child k e h parent f s =
    let expected = calc_difficulty_frontier (uint64_of h.time) parent in
    let b : eqb_ℤ expected h.difficulty ≡ true =
      subst (λ d. eqb_ℤ expected d ≡ true) (sym f.difficulty) (eqb_ℤ-refl expected) in
    let c : ltb 9223372036854775807 h.gas_limit ≡ false = ground (arith, f.gas_limit) in
    let d : ltb h.gas_limit h.gas_used ≡ false = ground (arith, f.gas_used) in
    let n : eqb_ℤ (h.number -ℤ parent.number) (pos 1) ≡ true =
      subst (λ x. eqb_ℤ x (pos 1) ≡ true) (sym f.number) refl in
    simp (f.later, b, c, d, n) s

-- For a header that the chain does not have, VerifyHeader accepts it exactly when its parent is
-- there, the header follows it, and its seal is valid. The gas limit of the parent plays no part.
pub verify_header-accepts :
    (chain : ChainReader) (k : Hashes) (e : Ethash) (h : Header)
    → chain.get_header (k.header_hash h) (uint64_of h.number) ≡ none
    → (verify_header chain k e h ≡ none) ↔ (
        (parent : Header) × (chain.get_header h.parent_hash (parent_number h) ≡ some parent)
        × Follows parent h
        × (verify_seal k e h false ≡ none))
unfolding verify_header
verify_header-accepts chain k e h u = (there, enough)
  where
    there :
        verify_header chain k e h ≡ none
        → (parent : Header) × (chain.get_header h.parent_hash (parent_number h) ≡ some parent)
          × Follows parent h
          × (verify_seal k e h false ≡ none)
    there x =
        let y : verify_child k e h (chain.get_header h.parent_hash (parent_number h)) ≡ none =
          ap (verify_unknown chain k e h) (sym u) ∙ x in
        elim (Option-cases (chain.get_header h.parent_hash (parent_number h))) [
          | inl n ↦ not_none unknown_ancestor (ap (verify_child k e h) (sym n) ∙ y)
          | inr (parent, p) ↦
              let (f, s) = child_accepted k e h parent (ap (verify_child k e h) (sym p) ∙ y) in
              (parent, p, f, s)
        ]

    enough :
        ((parent : Header) × (chain.get_header h.parent_hash (parent_number h) ≡ some parent)
          × Follows parent h
          × (verify_seal k e h false ≡ none))
        → verify_header chain k e h ≡ none
    enough (parent, p, f, s) =
        ap (verify_unknown chain k e h) u
        ∙ ap (verify_child k e h) p
        ∙ accepts_child k e h parent f s

-- A header that Initialize prepares for a known parent and that mine then seals passes VerifyHeader:
-- where its time is after the parent's, its number is the next, its gas used is within a gas limit
-- below 2^63, the engine is not fake, and the dataset and the cache agree.
pub verify_header-mine :
    (chain : ChainReader) (k : Hashes) (mode : Mode) (fail : ℕ) (h prepared sealed parent : Header)
    (attempts seed : ℕ)
    → is_fake mode ≡ false
    → Agree k mode
    → chain.get_header h.parent_hash (parent_number h) ≡ some parent
    → ltb_ℤ parent.time h.time ≡ true
    → h.number -ℤ parent.number ≡ pos 1
    → h.gas_used ≤ h.gas_limit
    → h.gas_limit ≤ 9223372036854775807
    → initialize chain h ≡ some prepared
    → mine k prepared attempts seed ≡ some (some sealed)
    → verify_header chain k (alone mode fail) sealed ≡ none
unfolding verify_header initialize mine verify_seal
verify_header-mine chain k mode fail h prepared sealed parent attempts seed real agree p t n u g i
      m =
    let expected = calc_difficulty_frontier (uint64_of h.time) parent in
    let ready = record h { difficulty = expected } in
    let same : ready ≡ prepared = some_inj (
      sym (
        ap
          (λ o. o >>= λ q.
            some (record h { difficulty = calc_difficulty_frontier (uint64_of h.time) q }))
          p)
      ∙ i) in
    let found : mine k ready attempts seed ≡ some (some sealed) =
      ap (λ x. mine k x attempts seed) same ∙ m in
    let positive : ltb_ℤ (pos 0) expected ≡ true =
      above_zero expected (minimum-calc_difficulty_frontier (uint64_of h.time) parent) in
    let nonzero : eqb_ℤ expected (pos 0) ≡ false = ground (arith, positive) in
    let s = mine_loop-Sealed k ready sealed attempts seed (some_inj (simp nonzero at found)) in
    let seal : verify_seal k (alone mode fail) sealed false ≡ none =
      ap (λ b. if b then verify_fake fail sealed else verify_pow k mode sealed false) real
      ∙ Sealed-verify_pow k mode ready sealed false agree positive s in
    let whole = record ready {
      nonce = s.nonce;
      mix_digest = (k.full (uint64_of ready.number) (hash_no_nonce k ready) s.nonce).0;
    } in
    subst (λ x. verify_header chain k (alone mode fail) x ≡ none) (sym s.header)
      (known_or whole
        (accepts_child k (alone mode fail) whole parent
          (record { later = t; difficulty = refl; gas_limit = g; gas_used = u; number = n })
          (subst (λ x. verify_seal k (alone mode fail) x false ≡ none) s.header seal))
        p (chain.get_header (k.header_hash whole) (uint64_of whole.number)))
  where
    above_zero : (d : ℤ) → minimum_difficulty ≤ℤ d → ltb_ℤ (pos 0) d ≡ true
    above_zero d x = ground (arith, x)

    known_or :
        (x : Header)
        → verify_child k (alone mode fail) x (some parent) ≡ none
        → chain.get_header x.parent_hash (parent_number x) ≡ some parent
        → (o : Option Header) → verify_unknown chain k (alone mode fail) x o ≡ none
    known_or x c q (some _) = refl
    known_or x c q none = ap (verify_child k (alone mode fail) x) q ∙ c
