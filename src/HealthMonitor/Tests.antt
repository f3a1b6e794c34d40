-- ===== src/HealthMonitor/Tests.antt =====
-- The health monitor on concrete inputs, and its theorems at inputs that meet their hypotheses.
use claude_library.Prelude.{
  ℕ, ◌+◌, ◌≤◌, String, ◌≡◌, ◌↔◌, refl, true, false, none, some, List, [], ◌∷◌, ◌++◌,
}
use claude_library.Prelude.Dict.{lookup, insert}
use claude_library.HealthMonitor.State.{
  unhealthy, failed, HealthCheckResult, HealthCheckConfig, AlertConfig, default_alerts, create,
}
use claude_library.HealthMonitor.Probes.{Probe, verdict, times_out}
use claude_library.HealthMonitor.Monitor.{
  Alert, AlertCall, returns, add_check, accept, process, count_failure, check_all, handle_result,
  should_alert, send_alert,
}
use claude_library.HealthMonitor.Schedule.{
  Event, adds, finishes, finishes_all, apply, run, alerts_of,
}
use claude_library.HealthMonitor.Spacing.{AreSpaced}
use claude_library.HealthMonitor.Alerts.{alerts_spaced}
use claude_library.HealthMonitor.Streaks.{streak, results_in, handled, alert_needs_streak}
use claude_library.HealthMonitor.Overall.{rank, worst_of, worst_state_reported}

abbrev database : HealthCheckConfig
database = record {
  name = "database";
  has_check_fn = true;
  url = none;
  timeout = 5000000;
  expected_status_codes = 200 ∷ [];
  degraded_threshold = 1000000;
  unhealthy_threshold = 5000000;
  retry_count = 1;
}

abbrev alerting : AlertConfig
alerting = record default_alerts { has_alert_fn = true; cooldown = 100 }

abbrev fails : String → ℕ → Probe
fails name attempt = record { function = verdict false 7; http = times_out }

-- The alert function takes five microseconds.
abbrev calls : String → AlertCall
calls name = returns 5

abbrev bad : HealthCheckResult
bad = record {
  name = "database";
  state = unhealthy;
  message = failed;
  response_time = 7;
  timestamp = 10;
}

-- The results of four checks, the last of which were begun before the alert of the second.
abbrev outage : List (ℕ × Event)
outage =
    (0, adds database)
    ∷ (10, finishes calls "database" bad)
    ∷ (20, finishes calls "database" bad)
    ∷ (30, finishes_all calls (bad ∷ []))
    ∷ (125, finishes calls "database" bad)
    ∷ []

abbrev alert : ℕ → Alert
alert t = record {
  name = "database";
  state = unhealthy;
  message = failed;
  begun = t;
  ended = t + 5;
}

-- The second failure is alerted, the third falls into the cooldown, the fourth does not.
alerts_of-outage : alerts_of outage (create true (some alerting)) ≡ alert 20 ∷ alert 125 ∷ []
unfolding alerts_of apply add_check accept process handle_result count_failure should_alert
    send_alert create lookup insert
alerts_of-outage = refl

alerts_spaced_example :
    AreSpaced 100 "database" none (alerts_of outage (create true (some alerting)))
alerts_spaced_example = alerts_spaced true alerting outage "database"

alert_needs_streak_example : 2 ≤ streak "database" 0 (results_in ((10, bad) ∷ []) ++ bad ∷ [])
unfolding handled handle_result should_alert send_alert create lookup insert
alert_needs_streak_example =
    alert_needs_streak true alerting calls ((10, bad) ∷ []) 20 bad (λ e. absurd (cc e))

worst_state_reported_example :
    let s = (check_all 10 fails calls (run outage (create true none))).0 in
    (rank s.state ≡ worst_of s.checks) × ((s.is_healthy ≡ true) ↔ (worst_of s.checks ≡ 0))
worst_state_reported_example = worst_state_reported 10 fails calls (run outage (create true none))
