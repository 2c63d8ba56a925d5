-- ===== src/Evm.antt =====
-- core/vm/evm.go and core/vm/contract.go: the entry points by which a transaction or a contract
-- calls and creates contracts. core/evm.go: `CanTransfer` and `Transfer`.
pub mod Defs
pub mod Create
pub mod Outcome
pub mod Calls
pub mod Finish
pub mod Creation
pub mod Machine
pub mod Sample
mod Tests
