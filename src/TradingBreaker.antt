-- ===== src/TradingBreaker.antt =====
-- components/trading/circuit_breakers/circuit_breaker.py.
pub mod State
pub mod Transitions
pub mod Calls
pub mod Manager
pub mod Backoff
pub mod Counting
pub mod Window
mod Tests
