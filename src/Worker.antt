-- ===== src/Worker.antt =====
-- backend-worker: a worker's registry entry, its task loop, and the reaper of crashed workers' jobs.
pub mod Heartbeat
pub mod Registry
pub mod Reaper
pub mod Consumer
