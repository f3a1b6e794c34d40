-- ===== src/Breaker.antt =====
-- components/utilities/circuit_breaker/circuit_breaker.py.
pub mod State
pub mod Transitions
pub mod Calls
pub mod Schedule
pub mod Invariant
pub mod Backoff
pub mod Refusal
pub mod Tripping
pub mod Recovery
pub mod Window
pub mod Manager
mod Tests
