-- ===== src/Tests.antt =====
-- Runs of the modelled code on concrete inputs, and applications of the theorems to them.
pub mod Budget
pub mod Classifier
pub mod Context
pub mod Engine
pub mod Graph
pub mod Ledger
pub mod Plans
pub mod Reducer
pub mod Run
pub mod Semantic
pub mod Settlement
pub mod Stop
