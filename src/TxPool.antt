-- ===== src/TxPool.antt =====
-- core/tx_pool.go over the lists of core/tx_list.go: the transactions of all accounts.
pub mod Priced
pub mod Stale
pub mod Defs
pub mod Lookup
pub mod Places
pub mod Complete
pub mod Moves
pub mod Sound
pub mod Enqueue
pub mod Vacate
pub mod Remain
pub mod Unqueue
pub mod Remove
pub mod Stores
pub mod Add
pub mod Promote
pub mod Demote
pub mod Shed
pub mod Demotion
pub mod Demoted
pub mod Executable
mod Tests
