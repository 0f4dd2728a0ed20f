-- ===== src/Parser.antt =====
-- backend-worker/internal/parser: the batches of files that are parsed together.
pub mod Batch
pub mod Registry
