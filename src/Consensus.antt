-- ===== src/Consensus.antt =====
-- consensus/pow/pow.go: the difficulty, headers and seals of the proof of work. core/validator.go: the
-- gas limit of the next block.
pub mod Difficulty
pub mod GasLimit
pub mod Seal
pub mod Mining
pub mod Header
mod Tests
