-- ===== src/Ledger.antt =====
-- The epistemic ledger: src/fre/domain/ledger.py and src/fre/modules/m09_ledger.py.
pub mod Types
pub mod Nodes
pub mod Edges
pub mod Status
pub mod Contradictions
pub mod Adjacency
pub mod Dependencies
pub mod Admission
pub mod Revisions
pub mod Search
pub mod Closure
