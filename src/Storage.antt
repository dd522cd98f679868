-- ===== src/Storage.antt =====
-- The storage quota of an organization: api/src/storage-quota and the deletions of api/src/s3.
pub mod Model
pub mod Registry
pub mod Cycle
pub mod Accounting
pub mod Preserve
pub mod CycleConsistency
pub mod Recovery
pub mod Reconcile
pub mod RecoveryConsistency
pub mod Upload
pub mod Recount
pub mod ReconcileConsistency
pub mod Ownership
pub mod OwnershipRecovery
pub mod Trace
pub mod Safety
mod Tests
