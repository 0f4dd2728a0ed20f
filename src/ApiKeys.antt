-- ===== src/ApiKeys.antt =====
-- backend-api/internal/apikey: project keys and personal keys.
pub mod Rows
pub mod Service
pub mod Limits
pub mod Deletion
