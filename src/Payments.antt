-- ===== src/Payments.antt =====
-- The payments of subscriptions, api/src/subscriptions/payments.
pub mod Model
pub mod Requests
pub mod Registry
pub mod Writes
pub mod Service
pub mod Initiation
pub mod Trace
pub mod Machine
pub mod Lists
pub mod Effects
pub mod Steps
pub mod Progress
pub mod Soundness
pub mod Invariant
pub mod Handlers
pub mod Reservation
pub mod Rest
pub mod Outcomes
pub mod Exclusive
pub mod Replay
pub mod Recall
pub mod Repetition
pub mod Confirmation
pub mod Delivery
mod Tests
pub mod Concordance
pub mod Phones
