-- ===== src/Trie/Encoding.antt =====
-- trie/encoding.go: keys as bytes, as nibbles with an optional terminator, and in the compact form.
-- `none` is a panic.
use kkchain.Base.{
  ℕ, suc, ◌-◌, ◌*◌, ◌/◌, ◌%◌, List, [], ◌∷◌, Option, none, some, Bool, false, ◌==◌, if◌then◌else◌,
  ltb, length, drop, drop_last, bit_or, ◌>>=◌,
}

-- `hasTerm`
unfoldable pub has_term : List ℕ → Bool
has_term [] = false
has_term (x ∷ []) = x == 16
has_term (x ∷ y ∷ ys) = has_term (y ∷ ys)

-- `keybytesToHex`
unfoldable pub keybytes_to_hex : List ℕ → List ℕ
keybytes_to_hex [] = 16 ∷ []
keybytes_to_hex (b ∷ bs) = b / 16 ∷ b % 16 ∷ keybytes_to_hex bs

-- `decodeNibbles`, as the bytes that it writes
unfoldable pub decode_nibbles : List ℕ → Option (List ℕ)
decode_nibbles [] = some []
decode_nibbles (x ∷ []) = none
decode_nibbles (x ∷ y ∷ rest) =
    decode_nibbles rest >>= λ bytes. some (bit_or ((x * 16) % 256) y ∷ bytes)

unfoldable pub strip_term : List ℕ → List ℕ
unfolding has_term
strip_term hex = if has_term hex then drop_last hex else hex

-- `hexToKeybytes`
unfoldable pub hex_to_keybytes : List ℕ → Option (List ℕ)
unfolding strip_term decode_nibbles
hex_to_keybytes hex =
    if length (strip_term hex) % 2 == 0 then decode_nibbles (strip_term hex) else none

-- The odd flag and the first nibble go into the flag byte.
abbrev pub pack_odd : ℕ → List ℕ → Option (List ℕ)
pack_odd flag [] = none
pack_odd flag (x ∷ xs) = decode_nibbles xs >>= λ bytes. some (bit_or (bit_or flag 16) x ∷ bytes)

unfoldable pub pack_nibbles : ℕ → List ℕ → Option (List ℕ)
unfolding decode_nibbles
pack_nibbles flag hex =
    if length hex % 2 == 1
    then pack_odd flag hex
    else (decode_nibbles hex >>= λ bytes. some (flag ∷ bytes))

-- `hexToCompact`
unfoldable pub hex_to_compact : List ℕ → Option (List ℕ)
unfolding pack_nibbles strip_term
hex_to_compact hex = pack_nibbles (if has_term hex then 32 else 0) (strip_term hex)

-- `base[chop:]`
abbrev pub chopped : ℕ → List ℕ → Option (List ℕ)
chopped n xs = if ltb (length xs) n then none else some (drop n xs)

abbrev pub unpack : List ℕ → Option (List ℕ)
unpack [] = none
unpack (b ∷ bs) = chopped (2 - b % 2) (if ltb b 2 then drop_last (b ∷ bs) else b ∷ bs)

-- `compactToHex`
unfoldable pub compact_to_hex : List ℕ → Option (List ℕ)
unfolding keybytes_to_hex
compact_to_hex compact = unpack (keybytes_to_hex compact)

-- `prefixLen`
unfoldable pub prefix_len : List ℕ → List ℕ → ℕ
prefix_len [] ys = 0
prefix_len (x ∷ xs) [] = 0
prefix_len (x ∷ xs) (y ∷ ys) = let rest = prefix_len xs ys in if x == y then suc rest else 0
