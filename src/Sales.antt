-- ===== src/Sales.antt =====
-- The sales of api/src/sales with the stock that they take.
pub mod Model
pub mod Effects
pub mod Service
pub mod Edits
pub mod Stock
pub mod Adjustment
pub mod Balance
pub mod Creation
pub mod Changes
pub mod Replay
mod Tests
