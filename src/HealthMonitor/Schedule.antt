-- ===== src/HealthMonitor/Schedule.antt =====
-- Any sequence of steps of a monitor, each at its time. A check awaits what it probes, so its steps are
-- two: it reads its configuration and runs, which changes nothing, and later its result is handled, by
-- when other steps may have come in between. A schedule has the second of them, with any result.
use claude_library.Prelude.{ℕ, String, List, [], ◌∷◌, ◌++◌}
use claude_library.Prelude.Dict.{values}
use claude_library.HealthMonitor.State.{HealthCheckResult, HealthCheckConfig, HealthMonitor}
use claude_library.HealthMonitor.Monitor.{
  Alert, AlertCall, add_check, add_http_check, remove_check, accept, process, start_monitoring,
  stop_monitoring,
}

-- `finishes` is the end of `check`, and `finishes_all` the loop of `check_all`, which a round of the
-- monitoring calls, over the results of the checks that it has gathered.
pub data Event : Type 0 where
  adds adds_http : HealthCheckConfig → Event
  removes : String → Event
  finishes : (String → AlertCall) → String → HealthCheckResult → Event
  finishes_all : (String → AlertCall) → List HealthCheckResult → Event
  starts stops : Event

unfoldable pub apply : ℕ → Event → HealthMonitor → HealthMonitor × List Alert
unfolding accept process
apply now (adds c) m = (add_check c m, [])
apply now (adds_http c) m = (add_http_check c m, [])
apply now (removes name) m = ((remove_check name m).1, [])
apply now (finishes calls name r) m = accept now calls name r m
apply now (finishes_all calls rs) m = process now calls (values m.checks) rs m
apply now starts m = (start_monitoring m, [])
apply now stops m = (stop_monitoring m, [])

unfoldable pub run : List (ℕ × Event) → HealthMonitor → HealthMonitor
unfolding apply
run [] m = m
run ((now, e) ∷ s) m = run s (apply now e m).0

-- The alerts of a schedule.
unfoldable pub alerts_of : List (ℕ × Event) → HealthMonitor → List Alert
unfolding apply
alerts_of [] m = []
alerts_of ((now, e) ∷ s) m = (apply now e m).1 ++ alerts_of s (apply now e m).0
