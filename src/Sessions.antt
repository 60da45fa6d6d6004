-- ===== src/Sessions.antt =====
-- Refresh-token families, OAuth state and access tokens: backend/app/services/auth.py and
-- backend/app/auth/tokens.py.
pub mod Model
pub mod Tokens
pub mod Steps
pub mod Families
pub mod Replay
pub mod Reuse
pub mod Refines
pub mod Moves
pub mod Access
pub mod OAuth
pub mod Once
mod Examples
