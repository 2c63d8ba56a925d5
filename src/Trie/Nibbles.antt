-- ===== src/Trie/Nibbles.antt =====
-- Bytes as pairs of nibbles.
use kkchain.Base.{
  ℕ, zero, suc, ◌+◌, ◌*◌, ◌/◌, ◌%◌, ◌<◌, List, [], ◌∷◌, ◌++◌, some, Bool, true, false, ◌&&◌, ◌==◌,
  length, bit_or, bind_some, ◌≡◌, refl, arith, Bool-cases, inl, inr,
}
use kkchain.Trie.Encoding.{has_term, keybytes_to_hex, decode_nibbles}

abbrev pub AllBelow : ℕ → List ℕ → Type 0
AllBelow n [] = Unit {0}
AllBelow n (x ∷ xs) = (x < n) × AllBelow n xs

-- A test for the numbers below a bound.
holds_below : ℕ → (ℕ → Bool) → Bool
holds_below zero f = true
holds_below (suc n) f = f n && holds_below n f

holds_at : (n : ℕ) (f : ℕ → Bool) (x : ℕ) → holds_below n f ≡ true → x < n → f x ≡ true
unfolding holds_below
holds_at zero f x h l = absurd (omega (arith, l))
holds_at (suc n) f x h l = elim (Bool-cases (x == n)) [
  | inl e ↦ let same : x ≡ n = ground (arith, e) in rw same (ground (arith, h))
  | inr e ↦ holds_at n f x (ground (arith, h)) (ground (arith, e, l))
]

joined : ℕ → ℕ → Bool
joined x y = bit_or ((x * 16) % 256) y == x * 16 + y

all_joined : holds_below 16 (λ x. holds_below 16 (joined x)) ≡ true
unfolding holds_below joined
all_joined = refl

-- The two nibbles of a byte are in separate bits.
pub join_nibbles : (x y : ℕ) → x < 16 → y < 16 → bit_or ((x * 16) % 256) y ≡ x * 16 + y
unfolding joined
join_nibbles x y h k = ground (
  arith,
  holds_at 16 (joined x) y (holds_at 16 (λ z. holds_below 16 (joined z)) x all_joined h) k,
)

flagged : ℕ → Bool
flagged x = (bit_or (bit_or 0 16) x == 16 + x) && (bit_or (bit_or 32 16) x == 48 + x)

all_flagged : holds_below 16 flagged ≡ true
unfolding holds_below flagged
all_flagged = refl

-- The flag byte of an odd number of nibbles.
pub join_flags :
    (x : ℕ) → x < 16 → (bit_or (bit_or 0 16) x ≡ 16 + x) × (bit_or (bit_or 32 16) x ≡ 48 + x)
unfolding flagged
join_flags x h =
    let e = holds_at 16 flagged x all_flagged h in (ground (arith, e), ground (arith, e))

-- An even number of nibbles decodes to the bytes with these nibbles.
pub decode_pairs :
    (hex : List ℕ)
    → AllBelow 16 hex
    → length hex % 2 ≡ 0
    → (bytes : List ℕ) × (decode_nibbles hex ≡ some bytes)
      × (keybytes_to_hex bytes ≡ hex ++ (16 ∷ []))
unfolding decode_nibbles keybytes_to_hex
decode_pairs [] n e = ([], refl, refl)
decode_pairs (x ∷ []) n e = absurd (omega (arith, e))
decode_pairs (x ∷ y ∷ hex) n e =
    let (bytes, d, k) = decode_pairs hex n.1.1 (omega (arith, e)) in
    let b = bit_or ((x * 16) % 256) y in
    let j = join_nibbles x y n.0 n.1.0 in
    let high : b / 16 ≡ x = omega (arith, j, n.0, n.1.0) in
    let low : b % 16 ≡ y = omega (arith, j, n.0, n.1.0) in
    (b ∷ bytes, bind_some _ d refl, (λ i. high i ∷ low i ∷ k i))

pub has_term-append : (hex : List ℕ) → has_term (hex ++ (16 ∷ [])) ≡ true
unfolding has_term
has_term-append [] = refl
has_term-append (x ∷ []) = refl
has_term-append (x ∷ y ∷ hex) = has_term-append (y ∷ hex)

pub has_term_nibbles : (hex : List ℕ) → AllBelow 16 hex → has_term hex ≡ false
unfolding has_term
has_term_nibbles [] n = refl
has_term_nibbles (x ∷ []) n = ground (arith, n.0)
has_term_nibbles (x ∷ y ∷ hex) n = has_term_nibbles (y ∷ hex) n.1
