-- ===== src/Gates.antt =====
-- components/trading/gate_system/gate_manager.py.
pub mod Level
pub mod Config
pub mod State
pub mod Capital
pub mod Trade
pub mod Graduation
pub mod Manager
pub mod Tiers
pub mod Conformance
pub mod Records
pub mod Progression
pub mod Persistence
mod Tests
