-- ===== src/Examples.antt =====
-- The theorems at concrete inputs.
mod Members
mod Transactions
mod IndexingJobs
mod Workers
mod Checks
mod Tasks
mod Keys
mod Events
mod Runs
mod Imports
mod Embeddings
