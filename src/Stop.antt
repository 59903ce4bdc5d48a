-- ===== src/Stop.antt =====
-- The stop controller: src/fre/domain/stop.py and src/fre/modules/m13_stop.py.
pub mod Types
pub mod Controller
pub mod Safety
pub mod Estimates
