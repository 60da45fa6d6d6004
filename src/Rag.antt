-- ===== src/Rag.antt =====
-- Evidence for an answer and the citations of it: backend/app/rag/evidence.py.
pub mod Model
pub mod Evidence
pub mod Selection
pub mod Ranking
pub mod Promise
pub mod Citations
pub mod Grounding
mod Examples
