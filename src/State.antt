-- ===== src/State.antt =====
-- core/state: the accounts of the chain state, with a journal that takes changes back.
pub mod Types
pub mod Object
pub mod Store
pub mod Methods
pub mod Revert
pub mod World
pub mod Reads
pub mod Views
pub mod Invariant
pub mod Undo
pub mod Keeps
pub mod Getters
pub mod Step
pub mod Setters
pub mod Create
pub mod Changes
pub mod Steps
pub mod Rollback
pub mod Snapshots
pub mod Answers
pub mod Lifecycle
pub mod Sample
mod Tests
pub mod Balances
