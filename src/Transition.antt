-- ===== src/Transition.antt =====
-- core/state_transition.go and core/gaspool.go: how a transaction pays for gas, runs and is
-- refunded.
pub mod Defs
pub mod Gas
pub mod Precheck
pub mod Settle
pub mod Run
mod Tests
