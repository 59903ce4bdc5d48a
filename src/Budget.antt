-- ===== src/Budget.antt =====
-- The budget: src/fre/domain/budget.py, src/fre/runtime/budget_meter.py and
-- src/fre/modules/m02_budget.py.
pub mod Types
pub mod Meter
pub mod Allocator
pub mod Vectors
pub mod Inversion
pub mod Bounds
pub mod Trips
pub mod Tiers
pub mod Plans
pub mod Burn
pub mod Windows
