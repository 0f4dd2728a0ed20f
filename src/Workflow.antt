-- ===== src/Workflow.antt =====
-- backend-worker/internal/workflow: the parts that the full and the incremental workflow share.
pub mod Bytes
pub mod Split
pub mod Scope
pub mod Files
pub mod Steps
pub mod Pipeline
pub mod Run
pub mod Handle
pub mod Imports
pub mod Embedding
