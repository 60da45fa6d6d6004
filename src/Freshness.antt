-- ===== src/Freshness.antt =====
-- How a refresh of an index is planned: backend/app/indexing/freshness.py.
pub mod Plan
pub mod Classified
pub mod Defensible
mod Examples
