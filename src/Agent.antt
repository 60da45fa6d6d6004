-- ===== src/Agent.antt =====
-- The question agent: backend/app/agent/service.py with the contracts of backend/app/agent/models.py.
pub mod Model
pub mod Index
pub mod State
pub mod Loop
pub mod Run
pub mod Cases
pub mod Whole
pub mod Cited
pub mod Traces
pub mod Bounds
pub mod Grounded
mod Examples
