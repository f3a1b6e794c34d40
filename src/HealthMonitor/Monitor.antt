-- ===== src/HealthMonitor/Monitor.antt =====
-- The methods of `HealthMonitor`, with an alert function that is not a coroutine: it runs to its end
-- within `_send_alert`, so that nothing else comes between the decision on an alert and the note of its
-- time. `probes` is what each check meets at each attempt, `calls` what a call of the alert function with
-- a name does.
use claude_library.Prelude.{
  ℕ, ◌+◌, String, Bool, true, false, not, ◌&&◌, Option, none, some, List, [], ◌∷◌, ◌++◌, any, leb,
  if◌then◌else◌,
}
use claude_library.Prelude.Key.{◌=?◌, string_key}
use claude_library.Prelude.Dict.{Dict, values, lookup, contains, insert, erase}
use claude_library.HealthMonitor.State.{
  HealthState, healthy, degraded, unhealthy, unknown, health_key, Message, not_found,
  HealthCheckResult, HealthStatus, HealthCheckConfig, HealthMonitor,
}
use claude_library.HealthMonitor.Probes.{Probe, result_of, execute_check}

-- One call of the alert function that returned, with the clock readings before and after it.
pub record Alert : Type 0 where
  pub name : String
  pub state : HealthState
  pub message : Message
  pub begun : ℕ
  pub ended : ℕ

-- How long a call of the alert function takes, and how it ends.
pub data AlertCall : Type 0 where
  returns raises : ℕ → AlertCall

abbrev pub taken : AlertCall → ℕ
taken (returns d) = d
taken (raises d) = d

unfoldable pub add_check : HealthCheckConfig → HealthMonitor → HealthMonitor
add_check c m = record m { checks = insert c.name c m.checks }

-- Without httpx nothing is added.
unfoldable pub add_http_check : HealthCheckConfig → HealthMonitor → HealthMonitor
add_http_check c m = if m.http_available then record m { checks = insert c.name c m.checks } else m

unfoldable pub remove_check : String → HealthMonitor → Bool × HealthMonitor
remove_check name m =
    if contains name m.checks
    then (
      true,
      record m {
        checks = erase name m.checks;
        results = erase name m.results;
        consecutive_failures = erase name m.consecutive_failures;
      },
    )
    else (false, m)

-- `d.get(name, 0)`
abbrev pub count_of : String → Dict String ℕ → ℕ
count_of name d = elim (lookup name d) [ none ↦ 0 | some n ↦ n ]

-- `_should_alert`, up to the time since the last alert.
abbrev pub cooled : ℕ → ℕ → Option ℕ → Bool
cooled cooldown now none = true
cooled cooldown now (some last) = leb (last + cooldown) now

unfoldable pub should_alert : ℕ → String → HealthMonitor → Bool
should_alert now name m =
    m.alert_config.enabled
    && m.alert_config.has_alert_fn
    && leb m.alert_config.consecutive_failures_threshold (count_of name m.consecutive_failures)
    && cooled m.alert_config.cooldown now (lookup name m.last_alert_time)

-- The time is noted when the alert function has returned, and not where it raises.
unfoldable pub send_alert :
    ℕ → (String → AlertCall) → HealthCheckResult → HealthMonitor → HealthMonitor × List Alert
send_alert now calls r m =
    let after = now + taken (calls r.name) in
    let sent : HealthMonitor × List Alert = (
      record m { last_alert_time = insert r.name after m.last_alert_time },
      record { name = r.name; state = r.state; message = r.message; begun = now; ended = after }
          ∷ [],
    ) in
    if m.alert_config.has_alert_fn
    then elim (calls r.name) [ returns d ↦ sent | raises d ↦ (m, []) ]
    else (m, [])

unfoldable pub count_failure : HealthCheckResult → HealthMonitor → HealthMonitor
count_failure r m = record m {
  consecutive_failures =
      insert r.name (count_of r.name m.consecutive_failures + 1) m.consecutive_failures;
}

unfoldable pub handle_result :
    ℕ → (String → AlertCall) → HealthCheckResult → HealthMonitor → HealthMonitor × List Alert
unfolding count_failure should_alert send_alert
handle_result now calls r m =
    let counted = count_failure r m in
    if not (r.state =? unhealthy)
    then (record m { consecutive_failures = insert r.name 0 m.consecutive_failures }, [])
    else if should_alert now r.name counted
    then send_alert now calls r counted
    else (counted, [])

-- The clock when a result has been handled.
unfoldable pub clock_after : ℕ → (String → AlertCall) → HealthCheckResult → HealthMonitor → ℕ
unfolding count_failure should_alert
clock_after now calls r m =
    if r.state =? unhealthy && should_alert now r.name (count_failure r m)
    then now + taken (calls r.name)
    else now

-- What `check` and the loop of `check_all` do with a result.
unfoldable pub accept :
    ℕ
    → (String → AlertCall)
    → String
    → HealthCheckResult
    → HealthMonitor
    → HealthMonitor × List Alert
unfolding handle_result
accept now calls name r m =
    handle_result now calls r (record m { results = insert name r m.results })

unfoldable pub calculate_overall_state : List HealthCheckResult → HealthState
calculate_overall_state rs =
    if any (λ r. r.state =? unhealthy) rs
    then unhealthy
    else if any (λ r. r.state =? degraded) rs
    then degraded
    else if any (λ r. r.state =? unknown) rs
    then unknown
    else healthy

-- A check with nothing else in between, which runs until `now`.
unfoldable pub check :
    ℕ
    → (String → ℕ → Probe)
    → (String → AlertCall)
    → String
    → HealthMonitor
    → HealthCheckResult × HealthMonitor × List Alert
unfolding execute_check accept
check now probes calls name m = elim (lookup name m.checks) [
  | none ↦ (result_of now name unknown not_found 0, m, [])
  | some c ↦
      let r = execute_check m.http_available now (probes name) c in
      let (n, alerts) = accept now calls name r m in (r, n, alerts)
]

-- The results of `gather`, in the order of the checks.
unfoldable pub execute_all :
    Bool → ℕ → (String → ℕ → Probe) → List HealthCheckConfig → List HealthCheckResult
unfolding execute_check
execute_all available now probes [] = []
execute_all available now probes (c ∷ cs) =
    execute_check available now (probes c.name) c ∷ execute_all available now probes cs

-- The loop over the checks and their results.
unfoldable pub process :
    ℕ
    → (String → AlertCall)
    → List HealthCheckConfig
    → List HealthCheckResult
    → HealthMonitor
    → HealthMonitor × List Alert
unfolding accept clock_after
process now calls (c ∷ cs) (r ∷ rs) m =
    let (n, alerts) = accept now calls c.name r m in
    let (o, more) = process (clock_after now calls r m) calls cs rs n in (o, alerts ++ more)
process now calls _ _ m = (m, [])

-- Without checks the system is healthy.
unfoldable pub check_all :
    ℕ
    → (String → ℕ → Probe)
    → (String → AlertCall)
    → HealthMonitor
    → HealthStatus × HealthMonitor × List Alert
unfolding execute_all process calculate_overall_state
check_all now probes calls m =
    let rs = execute_all m.http_available now probes (values m.checks) in
    let (n, alerts) = process now calls (values m.checks) rs m in
    let state = calculate_overall_state rs in
    (record { is_healthy = state =? healthy; state = state; checks = rs }, n, alerts)

unfoldable pub get_last_result : String → HealthMonitor → Option HealthCheckResult
get_last_result name m = lookup name m.results

-- The task of the loop is its flag.
unfoldable pub start_monitoring : HealthMonitor → HealthMonitor
start_monitoring m = record m { running = true }

unfoldable pub stop_monitoring : HealthMonitor → HealthMonitor
stop_monitoring m = record m { running = false }
