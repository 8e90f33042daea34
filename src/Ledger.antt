-- ===== src/Ledger.antt =====
-- The in-memory double-entry ledger of crates/ledger-core/src/ledger.rs: its state, its
-- operations, the journal events, batches with rollback, and the invariant checker.
pub mod State
pub mod Checks
pub mod Operations
pub mod Events
pub mod Rollback
pub mod Batch
pub mod Verify
pub mod Step
pub mod Invariant
