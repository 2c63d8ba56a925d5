-- ===== src/Pool.antt =====
-- core/tx_list.go: the transactions of an account in the order of their nonces, as the transaction
-- pool keeps them.
pub mod SortedMap
pub mod Entries
pub mod Sorting
pub mod Loops
pub mod Upkeep
pub mod Operations
pub mod Calls
pub mod TxList
pub mod Limits
pub mod Filter
pub mod Strict
mod Tests
