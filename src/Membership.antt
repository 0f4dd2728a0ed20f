-- ===== src/Membership.antt =====
-- backend-api/internal/membership: project members, their roles and the ownership rules.
pub mod Rows
pub mod Service
mod Counts
mod Steps
pub mod Owners
pub mod Guards
