-- ===== src/HealthMonitor/Overall.antt =====
-- The overall state of a system.
use claude_library.Prelude.{ℕ, max, String, ◌≡◌, ◌↔◌, refl, true, List, [], ◌∷◌, arith}
use claude_library.HealthMonitor.State.{
  HealthState, healthy, degraded, unhealthy, unknown, health_key, HealthCheckResult, HealthMonitor,
}
use claude_library.HealthMonitor.Probes.{Probe}
use claude_library.HealthMonitor.Monitor.{AlertCall, calculate_overall_state, check_all}

-- How bad a state is.
abbrev pub rank : HealthState → ℕ
rank healthy = 0
rank unknown = 1
rank degraded = 2
rank unhealthy = 3

abbrev pub worst_of : List HealthCheckResult → ℕ
worst_of [] = 0
worst_of (r ∷ rs) = max (rank r.state) (worst_of rs)

overall_lem : (rs : List HealthCheckResult) → rank (calculate_overall_state rs) ≡ worst_of rs
unfolding calculate_overall_state
overall_lem [] = refl
overall_lem (r ∷ rs) = ground (arith, overall_lem rs)

-- The state of a round is the worst state of its results, and it is reported as healthy exactly when
-- no result is worse than healthy.
pub worst_state_reported :
    (now : ℕ) (probes : String → ℕ → Probe) (calls : String → AlertCall) (m : HealthMonitor)
    → let s = (check_all now probes calls m).0 in
      (rank s.state ≡ worst_of s.checks) × ((s.is_healthy ≡ true) ↔ (worst_of s.checks ≡ 0))
unfolding check_all
worst_state_reported now probes calls m =
    let s = (check_all now probes calls m).0 in
    let w = overall_lem s.checks in (w, ground (arith, w))
