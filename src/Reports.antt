-- ===== src/Reports.antt =====
-- The limiter of api/src/reports.
pub mod Limiter
pub mod Bounds
mod Tests
