-- ===== src/Jobs.antt =====
-- The durable indexing jobs: backend/app/services/indexing_jobs.py over its tables.
pub mod Model
pub mod Rows
pub mod Access
pub mod Claim
pub mod Lease
pub mod Retry
pub mod Results
pub mod Prepare
pub mod Graph
pub mod Vectors
pub mod Activate
pub mod Cleanup
pub mod Invariant
pub mod Index
pub mod Trace
pub mod Exclusion
pub mod Recovery
pub mod Switch
pub mod Due
pub mod Sample
mod Examples
