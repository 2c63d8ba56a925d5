-- ===== src/Trie.antt =====
-- The package trie: the encodings of its keys.
pub mod Encoding
pub mod Nibbles
pub mod Compact
mod Tests
