-- ===== src/CallGraph.antt =====
-- The static call graph of Python files: backend/app/indexing/call_graph.py.
pub mod Names
pub mod Resolve
pub mod Build
pub mod Held
pub mod Counts
pub mod Fuel
mod Examples
