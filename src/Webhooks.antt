-- ===== src/Webhooks.antt =====
-- GitHub's webhooks: backend/app/services/webhooks.py over the tables of the job store.
pub mod Model
pub mod Validate
pub mod Rows
pub mod Push
pub mod Access
pub mod Handle
pub mod Frame
pub mod Events
pub mod Ends
pub mod Once
pub mod Jobs
pub mod Sound
pub mod Queued
pub mod Revoked
mod Examples
