-- ===== src/Trie/Compact.antt =====
-- The round trips of the encodings of keys.
use kkchain.Base.{
  take, get_elem?, some_inj, ◌≢◌, ℕ, suc, ◌*◌, ◌/◌, ◌%◌, ◌<◌, List, [], ◌∷◌, ◌++◌, some, Bool, true,
  false, ◌==◌, if◌then◌else◌, length, drop_last-append, bit_or, ◌>>=◌, bind_some, ◌≡◌, refl, ap,
  ◌∙◌, arith, Bool-cases, inl, inr,
}
use kkchain.Trie.Encoding.{
  has_term, keybytes_to_hex, decode_nibbles, strip_term, hex_to_keybytes, pack_nibbles,
  hex_to_compact, chopped, unpack, compact_to_hex, prefix_len,
}
use kkchain.Trie.Nibbles.{
  AllBelow, join_nibbles, join_flags, decode_pairs, has_term-append, has_term_nibbles,
}

-- Nibbles with the terminator or without.
abbrev pub with_term : Bool → List ℕ → List ℕ
with_term true hex = hex ++ (16 ∷ [])
with_term false hex = hex

strip_lem : (term : Bool) (hex : List ℕ) → AllBelow 16 hex → strip_term (with_term term hex) ≡ hex
unfolding strip_term
strip_lem true hex n = rw (has_term-append hex) (drop_last-append hex 16)
strip_lem false hex n = rw (has_term_nibbles hex n) refl

has_term_lem : (term : Bool) (hex : List ℕ) → AllBelow 16 hex → has_term (with_term term hex) ≡ term
has_term_lem true hex n = has_term-append hex
has_term_lem false hex n = has_term_nibbles hex n

-- The byte of the flags with the first nibble of the key or 0.
flag_byte : Bool → ℕ
flag_byte term = if term then 32 else 0

chopped_two : (x y : ℕ) (xs : List ℕ) → chopped 2 (x ∷ y ∷ xs) ≡ some xs
chopped_two x y xs = ground arith

chopped_one : (x : ℕ) (xs : List ℕ) → chopped 1 (x ∷ xs) ≡ some xs
chopped_one x xs = ground arith

unpack_even :
    (term : Bool) (hex : List ℕ)
    → unpack (flag_byte term / 16 ∷ flag_byte term % 16 ∷ (hex ++ (16 ∷ [])))
      ≡ some (with_term term hex)
unfolding flag_byte
unpack_even true hex = chopped_two 2 0 (hex ++ (16 ∷ []))
unpack_even false hex = ap (chopped 2) (drop_last-append (0 ∷ 0 ∷ hex) 16) ∙ chopped_two 0 0 hex

-- The first byte of an odd key: its flags and its first nibble.
unpack_odd :
    (term : Bool) (x : ℕ) (hex : List ℕ)
    → x < 16
    → let b = bit_or (bit_or (flag_byte term) 16) x in
      unpack (b / 16 ∷ b % 16 ∷ (hex ++ (16 ∷ []))) ≡ some (with_term term (x ∷ hex))
unfolding flag_byte
unpack_odd true x hex h =
    let e = (join_flags x h).1 in
    let high : bit_or (bit_or 32 16) x / 16 ≡ 3 = omega (arith, e, h) in
    let low : bit_or (bit_or 32 16) x % 16 ≡ x = omega (arith, e, h) in
    rw (high, low) (chopped_one 3 (x ∷ (hex ++ (16 ∷ []))))
unpack_odd false x hex h =
    let e = (join_flags x h).0 in
    let high : bit_or (bit_or 0 16) x / 16 ≡ 1 = omega (arith, e, h) in
    let low : bit_or (bit_or 0 16) x % 16 ≡ x = omega (arith, e, h) in
    rw (high, low) (ap (chopped 1) (drop_last-append (1 ∷ x ∷ hex) 16) ∙ chopped_one 1 (x ∷ hex))

compact_even :
    (term : Bool) (hex : List ℕ)
    → AllBelow 16 hex
    → length hex % 2 ≡ 0
    → (pack_nibbles (flag_byte term) hex >>= compact_to_hex) ≡ some (with_term term hex)
unfolding pack_nibbles compact_to_hex keybytes_to_hex
compact_even term hex n e =
    let (bytes, d, k) = decode_pairs hex n e in
    let even : (length hex % 2 == 1) ≡ false = ground (arith, e) in
    rw (even, d, k) (unpack_even term hex)

compact_odd :
    (term : Bool) (x : ℕ) (hex : List ℕ)
    → AllBelow 16 (x ∷ hex)
    → length (x ∷ hex) % 2 ≡ 1
    → (pack_nibbles (flag_byte term) (x ∷ hex) >>= compact_to_hex) ≡ some (with_term term (x ∷ hex))
unfolding pack_nibbles compact_to_hex keybytes_to_hex
compact_odd term x hex n e =
    let (bytes, d, k) = decode_pairs hex n.1 (omega (arith, e)) in
    let odd : (suc (length hex) % 2 == 1) ≡ true = ground (arith, e) in
    rw (odd, d, k) (unpack_odd term x hex n.0)

-- For nibbles with the terminator or without, the compact form decodes to them, without a panic.
pub compact_to_hex-hex_to_compact :
    (term : Bool) (hex : List ℕ)
    → AllBelow 16 hex
    → (hex_to_compact (with_term term hex) >>= compact_to_hex) ≡ some (with_term term hex)
unfolding hex_to_compact flag_byte
compact_to_hex-hex_to_compact term hex n =
    rw (strip_lem term hex n, has_term_lem term hex n) (packed hex n)
  where
    packed :
        (h : List ℕ)
        → AllBelow 16 h
        → (pack_nibbles (flag_byte term) h >>= compact_to_hex) ≡ some (with_term term h)
    packed [] m = compact_even term [] m refl
    packed (x ∷ xs) m = elim (Bool-cases (length (x ∷ xs) % 2 == 1)) [
      | inl e ↦ compact_odd term x xs m (ground (arith, e))
      | inr e ↦ compact_even term (x ∷ xs) m (ground (arith, e))
    ]

-- The nibbles of a byte string.
nibbles-keybytes :
    (bytes : List ℕ)
    → AllBelow 256 bytes
    → (hex : List ℕ) × (keybytes_to_hex bytes ≡ hex ++ (16 ∷ []))
      × AllBelow 16 hex
      × (length hex % 2 ≡ 0)
      × (decode_nibbles hex ≡ some bytes)
unfolding keybytes_to_hex decode_nibbles
nibbles-keybytes [] n = ([], refl, tt, refl, refl)
nibbles-keybytes (b ∷ bytes) n =
    let (hex, k, m, e, d) = nibbles-keybytes bytes n.1 in
    let byte : bit_or ((b / 16 * 16) % 256) (b % 16) ≡ b =
      omega (arith, n.0, join_nibbles (b / 16) (b % 16) (omega (arith, n.0)) (omega arith)) in
    (
      b / 16 ∷ b % 16 ∷ hex,
      ap (λ (xs : List ℕ). b / 16 ∷ b % 16 ∷ xs) k,
      (omega (arith, n.0), (omega arith, m)),
      omega (arith, e),
      bind_some _ d (ap some (ap (λ (x : ℕ). x ∷ bytes) byte)),
    )

-- The bytes of a key come back from their nibbles, without a panic.
pub hex_to_keybytes-keybytes_to_hex :
    (bytes : List ℕ) → AllBelow 256 bytes → hex_to_keybytes (keybytes_to_hex bytes) ≡ some bytes
unfolding hex_to_keybytes
hex_to_keybytes-keybytes_to_hex bytes n =
    let (hex, k, m, e, d) = nibbles-keybytes bytes n in
    let even : (length hex % 2 == 0) ≡ true = ground (arith, e) in
    rw (k, strip_lem true hex m, even) d

-- The first elements of two keys, as many as prefixLen counts, are the same, and the next ones, where
-- both keys have one, differ.
pub prefix_len_lem :
    (xs ys : List ℕ)
    → (take (prefix_len xs ys) xs ≡ take (prefix_len xs ys) ys)
      × ((x y : ℕ)
          → get_elem? xs (prefix_len xs ys) ≡ some x
          → get_elem? ys (prefix_len xs ys) ≡ some y
          → x ≢ y)
unfolding prefix_len
prefix_len_lem [] ys = (refl, λ x y e f. cc)
prefix_len_lem (x ∷ xs) [] = (refl, λ a b e f. cc)
prefix_len_lem (x ∷ xs) (y ∷ ys) = elim (Bool-cases (x == y)) [
  | inl e ↦
      let same : x ≡ y = ground (arith, e) in
      rw e ((λ i. same i ∷ (prefix_len_lem xs ys).0 i), (prefix_len_lem xs ys).1)
  | inr e ↦ rw e (refl, λ a b p q s. differ x y a b e p q s)
]
  where
    differ : (x y a b : ℕ) → (x == y) ≡ false → some x ≡ some a → some y ≡ some b → a ≡ b → ⊥
    differ x y a b e p q s = ground (arith, e, some_inj p, some_inj q, s)
