-- ===== src/HealthMonitor.antt =====
-- components/utilities/health_monitor/health_monitor.py.
pub mod State
pub mod Probes
pub mod Monitor
pub mod Schedule
pub mod Spacing
pub mod Alerts
pub mod Overall
pub mod Streaks
mod Tests
