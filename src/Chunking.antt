-- ===== src/Chunking.antt =====
-- How documentation is cut into chunks: backend/app/indexing/chunking.py.
pub mod Lines
pub mod Tiling
pub mod Packing
mod Examples
