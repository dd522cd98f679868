-- ===== src/Subscriptions.antt =====
-- The periods of api/src/subscriptions: the calendar, the months, the state and the grants.
pub mod Calendar
pub mod Months
pub mod State
pub mod Coverage
pub mod Instants
pub mod Requests
pub mod Grants
pub mod Chain
pub mod Renewal
pub mod Replay
pub mod Growth
mod Tests
