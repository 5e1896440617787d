-- ===== src/Evidence.antt =====
-- packages/evidence: governed evidence on a transition.
pub mod Validate
pub mod Snapshots
pub mod Batch
pub mod Commit
pub mod Committed
