-- ===== src/Jobs.antt =====
-- Indexing jobs and index snapshots: their tables, the repository over them, and the life of a job.
pub mod Table
pub mod Repository
pub mod Lifecycle
pub mod Once
pub mod Snapshots
