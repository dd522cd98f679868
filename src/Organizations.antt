-- ===== src/Organizations.antt =====
-- The rights of the members of an organization.
pub mod Permissions
pub mod Escalation
mod Tests
