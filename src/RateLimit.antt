-- ===== src/RateLimit.antt =====
-- Question quotas: backend/app/services/rate_limit.py.
pub mod Limiter
pub mod Quota
mod Examples
