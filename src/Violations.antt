-- ===== src/Violations.antt =====
-- components/analysis/violation_factory/violation_factory.py, with `Severity` of common/types.py.
pub mod State
pub mod Records
pub mod Factory
pub mod Patterns
pub mod Collection
pub mod Lookup
pub mod RoundTrip
pub mod Groups
pub mod Creation
mod Tests
