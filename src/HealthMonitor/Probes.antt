-- ===== src/HealthMonitor/Probes.antt =====
-- How one check is executed, with its retries. What the function or the service does at each attempt
-- is a parameter.
use claude_library.Prelude.{
  ℕ, zero, suc, String, Bool, true, false, not, ◌&&◌, ◌||◌, none, some, any, leb, ◌==◌,
  if◌then◌else◌,
}
use claude_library.Prelude.Key.{◌=?◌, string_key}
use claude_library.HealthMonitor.State.{
  HealthState, healthy, degraded, unhealthy, unknown, health_key, Message, nothing_configured,
  no_result, fine, failed, unexpected_status, too_slow, slow, in_time, timed_out, connection_error,
  check_error, http_failed, says, HealthCheckResult, HealthCheckConfig,
}

-- What a check function does: it returns a Boolean, a result or another value, runs out of time or
-- raises.
pub data FunctionAnswer : Type 0 where
  verdict : Bool → ℕ → FunctionAnswer
  own_result : HealthCheckResult → ℕ → FunctionAnswer
  other_value : String → ℕ → FunctionAnswer
  overruns : FunctionAnswer
  raises : String → FunctionAnswer

-- How a request ends: with a status code after some time, or in an exception.
pub data HttpAnswer : Type 0 where
  response : ℕ → ℕ → HttpAnswer
  times_out : HttpAnswer
  no_connection other_failure : String → HttpAnswer

-- What there is at one attempt.
pub record Probe : Type 0 where
  pub function : FunctionAnswer
  pub http : HttpAnswer

abbrev pub result_of : ℕ → String → HealthState → Message → ℕ → HealthCheckResult
result_of now name state message time = record {
  name = name;
  state = state;
  message = message;
  response_time = time;
  timestamp = now;
}

-- A truthy URL.
abbrev pub has_url : HealthCheckConfig → Bool
has_url c = elim c.url [ none ↦ false | some u ↦ not (u =? "") ]

unfoldable pub execute_function_check : ℕ → FunctionAnswer → HealthCheckConfig → HealthCheckResult
execute_function_check now (verdict ok time) c =
    if ok
    then result_of now c.name healthy fine time
    else result_of now c.name unhealthy failed time
execute_function_check now (own_result r time) c = record r { response_time = time }
execute_function_check now (other_value text time) c = result_of now c.name healthy (says text) time
execute_function_check now overruns c = result_of now c.name unhealthy (timed_out c.timeout) 0
execute_function_check now (raises e) c = result_of now c.name unhealthy (check_error e) 0

-- A response by its status code and its time.
abbrev pub judge : ℕ → ℕ → HealthCheckConfig → HealthState × Message
judge code time c =
    if not (any (λ k. k == code) c.expected_status_codes)
    then (unhealthy, unexpected_status code)
    else if leb c.unhealthy_threshold time
    then (unhealthy, too_slow time)
    else if leb c.degraded_threshold time
    then (degraded, slow time)
    else (healthy, in_time time)

unfoldable pub execute_http_check : Bool → ℕ → HttpAnswer → HealthCheckConfig → HealthCheckResult
execute_http_check false now answer c = result_of now c.name unknown nothing_configured 0
execute_http_check true now (response code time) c =
    let (state, message) = judge code time c in result_of now c.name state message time
execute_http_check true now times_out c =
    result_of now c.name unhealthy (timed_out c.timeout) c.timeout
execute_http_check true now (no_connection e) c =
    result_of now c.name unhealthy (connection_error e) 0
execute_http_check true now (other_failure e) c = result_of now c.name unhealthy (http_failed e) 0

unfoldable pub attempt_check : Bool → ℕ → Probe → HealthCheckConfig → HealthCheckResult
unfolding execute_function_check execute_http_check
attempt_check available now p c =
    if has_url c
    then execute_http_check available now p.http c
    else execute_function_check now p.function c

-- The loop over the attempts that are left, of which `i` is the next. Neither kind of check raises.
unfoldable pub attempts_from :
    Bool → ℕ → (ℕ → Probe) → ℕ → ℕ → HealthCheckConfig → HealthCheckResult
unfolding attempt_check
attempts_from available now probes i zero c = result_of now c.name unknown no_result 0
attempts_from available now probes i (suc left) c =
    let r = attempt_check available now (probes i) c in
    let later = attempts_from available now probes (suc i) left c in
    if (r.state =? healthy) || (left == 0) then r else later

unfoldable pub execute_check : Bool → ℕ → (ℕ → Probe) → HealthCheckConfig → HealthCheckResult
unfolding attempts_from
execute_check available now probes c =
    if not (has_url c) && not c.has_check_fn
    then result_of now c.name unknown nothing_configured 0
    else attempts_from available now probes 0 c.retry_count c
