-- ===== src/Offline.antt =====
-- The sales that the web client records without a connection.
pub mod Policy
pub mod Outbox
pub mod Enqueue
pub mod Transactions
pub mod Actions
pub mod Effects
pub mod Numbering
pub mod Invariant
pub mod Steps
pub mod Rewritten
pub mod UserSteps
pub mod EnqueueSteps
pub mod Trace
pub mod Decisions
pub mod Sync
pub mod SyncSteps
pub mod Sending
pub mod Measure
pub mod Turns
pub mod TurnEnds
pub mod Termination
pub mod Limit
pub mod Safety
pub mod Corrections
mod Tests
mod OutboxTests
