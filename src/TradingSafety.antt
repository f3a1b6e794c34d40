-- ===== src/TradingSafety.antt =====
-- components/trading/circuit_breakers/trading_breakers.py.
pub mod State
pub mod Checks
pub mod Controls
pub mod Schedule
pub mod Windows
pub mod OrderLimits
pub mod Halts
pub mod Steady
pub mod Breaches
pub mod Agreement
mod Tests
