-- ===== src/Postgres.antt =====
-- backend-api/internal/storage/postgres: transactions.
pub mod Tx
