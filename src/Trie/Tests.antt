-- ===== src/Trie/Tests.antt =====
-- The encodings of a key.
use kkchain.Base.{[], ◌∷◌, some, true, ◌>>=◌, ◌≡◌, arith}
use kkchain.Trie.Encoding.{keybytes_to_hex, hex_to_keybytes, hex_to_compact, compact_to_hex}
use kkchain.Trie.Compact.{compact_to_hex-hex_to_compact, hex_to_keybytes-keybytes_to_hex}

compact_to_hex-hex_to_compact_example :
    (hex_to_compact (1 ∷ 2 ∷ 15 ∷ 16 ∷ []) >>= compact_to_hex) ≡ some (1 ∷ 2 ∷ 15 ∷ 16 ∷ [])
compact_to_hex-hex_to_compact_example =
    compact_to_hex-hex_to_compact true (1 ∷ 2 ∷ 15 ∷ [])
      (omega arith, (omega arith, (omega arith, tt)))

hex_to_keybytes-keybytes_to_hex_example :
    hex_to_keybytes (keybytes_to_hex (18 ∷ 255 ∷ [])) ≡ some (18 ∷ 255 ∷ [])
hex_to_keybytes-keybytes_to_hex_example =
    hex_to_keybytes-keybytes_to_hex (18 ∷ 255 ∷ []) (omega arith, (omega arith, tt))
