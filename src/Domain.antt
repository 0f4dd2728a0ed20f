-- ===== src/Domain.antt =====
-- backend-api/internal/domain: structured errors and role hierarchies.
pub mod Errors
pub mod Roles
