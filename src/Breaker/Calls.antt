-- ===== src/Breaker/Calls.antt =====
-- The calls of `CircuitBreaker`: admission, the recording of what the protected function did, and
-- the manual interventions. No lock section of the source awaits, and the lock of a breaker is
-- therefore never contended within an event loop: each section is one step.
use claude_library.Prelude.{
  ℕ, ◌+◌, ◌-◌, ◌*◌, ◌^◌, min, Bool, true, false, ◌&&◌, none, some, List, [], ◌∷◌, ◌++◌, ltb, leb,
  if◌then◌else◌, length,
}
use claude_library.Prelude.Key.{◌=?◌}
use claude_library.Breaker.State.{
  CircuitState, closed, opened, half_open, state_key, CircuitBreakerMetrics, no_metrics,
  CircuitBreaker, Notice, seconds,
}
use claude_library.Breaker.Transitions.{
  transition_to_open, transition_to_half_open, transition_to_closed, clean_old_failures,
  update_response_time, execute_trip_callbacks, execute_recovery_callbacks,
}

-- `time_since_failure >= current_backoff`, with no time in the half-open state before a failure.
unfoldable pub check_state_transition : ℕ → CircuitBreaker → CircuitBreaker
unfolding transition_to_half_open
check_state_transition now b = elim b.last_failure_time [
  | none ↦ b
  | some t ↦
      if b.state =? opened && leb (t + seconds b.current_backoff) now
      then transition_to_half_open now b
      else b
]

-- `max(0, current_backoff - elapsed)`, in microseconds.
unfoldable pub calculate_retry_after : ℕ → CircuitBreaker → ℕ
calculate_retry_after now b = elim b.last_failure_time [
  | none ↦ seconds b.current_backoff
  | some t ↦ t + seconds b.current_backoff - now
]

-- How the guarded head of `call` ends: the function is called, or `CircuitBreakerError` is raised.
pub data Admission : Type 0 where
  admitted : Admission
  refused_open : ℕ → Admission
  refused_limit : Admission

unfoldable pub admit : ℕ → CircuitBreaker → Admission × CircuitBreaker
unfolding check_state_transition calculate_retry_after
admit now b =
    let c = check_state_transition now b in
    if c.state =? opened
    then (refused_open (calculate_retry_after now c), c)
    else if c.state =? half_open && leb c.config.half_open_max_calls c.half_open_calls
    then (refused_limit, c)
    else if c.state =? half_open
    then (admitted, record c { half_open_calls = c.half_open_calls + 1 })
    else (admitted, c)

count_success : CircuitBreaker → CircuitBreaker
count_success b = record b {
  metrics = record m {
    total_requests = m.total_requests + 1;
    successful_requests = m.successful_requests + 1;
  };
}
  where
    m : CircuitBreakerMetrics
    m = b.metrics

-- The branch of `_on_success` on the state.
settle_success : ℕ → CircuitState → CircuitBreaker → CircuitBreaker × List Notice
unfolding transition_to_closed execute_recovery_callbacks
settle_success now half_open b =
    let c = record b { success_count = b.success_count + 1 } in
    if leb c.config.success_threshold c.success_count
    then (let d = transition_to_closed now c in (d, execute_recovery_callbacks d))
    else (c, [])
settle_success now closed b = (record b { failure_count = 0 }, [])
settle_success now opened b = (b, [])

unfoldable pub on_success : ℕ → ℕ → CircuitBreaker → CircuitBreaker × List Notice
unfolding count_success update_response_time clean_old_failures settle_success
on_success now response_time b =
    let c = clean_old_failures now (update_response_time response_time (count_success b)) in
    settle_success now c.state c

unfoldable pub should_trip : CircuitBreaker → Bool
should_trip b =
    if b.state =? closed
    then (if leb b.config.failure_threshold b.failure_count then true else by_rate)
    else false
  where
    total : ℕ
    total = b.metrics.total_requests

    by_rate : Bool
    by_rate =
        leb b.config.min_requests_for_rate total
        && ltb 0 total
        && leb (b.config.rate_num * total) (length b.recent_failures * b.config.rate_den)

unfoldable pub trip_circuit : ℕ → CircuitBreaker → CircuitBreaker × List Notice
unfolding transition_to_open execute_trip_callbacks
trip_circuit now b =
    let o = transition_to_open now b in
    let c = record o {
      metrics = record o.metrics {
        circuit_trips = o.metrics.circuit_trips + 1;
        last_trip_time = some now;
      };
    } in
    let d =
      if c.config.exponential_backoff
      then record c {
        current_backoff =
            min (c.config.timeout_duration * c.config.backoff_multiplier ^ c.backoff_count)
              c.config.max_backoff_seconds;
        backoff_count = c.backoff_count + 1;
      }
      else record c { current_backoff = c.config.timeout_duration } in
    (d, execute_trip_callbacks d)

count_failure : ℕ → CircuitBreaker → CircuitBreaker
count_failure now b = record b {
  metrics = record m {
    total_requests = m.total_requests + 1;
    failed_requests = m.failed_requests + 1;
    last_failure_time = some now;
  };
  last_failure_time = some now;
}
  where
    m : CircuitBreakerMetrics
    m = b.metrics

-- The branch of `_on_failure` on the state, with its decision to trip.
settle_failure : ℕ → CircuitState → CircuitBreaker → Bool × CircuitBreaker
unfolding transition_to_open should_trip
settle_failure now half_open b = (true, transition_to_open now b)
settle_failure now closed b =
    let c = record b { failure_count = b.failure_count + 1 } in (should_trip c, c)
settle_failure now opened b = (false, b)

unfoldable pub record_failure : ℕ → ℕ → CircuitBreaker → Bool × CircuitBreaker
unfolding count_failure update_response_time clean_old_failures settle_failure
record_failure now response_time b =
    let c = update_response_time response_time (count_failure now b) in
    let d = clean_old_failures now (record c { recent_failures = c.recent_failures ++ now ∷ [] }) in
    settle_failure now d.state d

unfoldable pub on_failure : ℕ → ℕ → CircuitBreaker → CircuitBreaker × List Notice
unfolding record_failure trip_circuit
on_failure now response_time b =
    let (trips, c) = record_failure now response_time b in
    if trips then trip_circuit now c else (c, [])

unfoldable pub force_open : ℕ → CircuitBreaker → CircuitBreaker × List Notice
unfolding transition_to_open execute_trip_callbacks
force_open now b = let c = transition_to_open now b in (c, execute_trip_callbacks c)

unfoldable pub force_close : ℕ → CircuitBreaker → CircuitBreaker × List Notice
unfolding transition_to_closed execute_recovery_callbacks
force_close now b = let c = transition_to_closed now b in (c, execute_recovery_callbacks c)

unfoldable pub reset : ℕ → CircuitBreaker → CircuitBreaker
reset now b = record b {
  state = closed;
  state_changed_time = now;
  failure_count = 0;
  success_count = 0;
  last_failure_time = none;
  half_open_calls = 0;
  backoff_count = 0;
  current_backoff = b.config.timeout_duration;
  metrics = no_metrics;
  recent_failures = [];
  request_times = [];
}

-- What the protected function does. `cancelled` is an exception outside `Exception`, such as
-- `asyncio.CancelledError`; `breaker_error` is the `CircuitBreakerError` of a breaker further in.
pub data Outcome (A E : Type 0) : Type 0 where
  returned : A → Outcome A E
  raised : E → Outcome A E
  breaker_error : E → Outcome A E
  cancelled : Outcome A E

-- How `call` ends.
pub data CallResult (A E : Type 0) : Type 0 where
  refused : Admission → CallResult A E
  passed_on : Outcome A E → CallResult A E

unfoldable pub finish :
    {A E : Type 0} → ℕ → ℕ → Outcome A E → CircuitBreaker → CircuitBreaker × List Notice
unfolding on_success on_failure
finish now response_time (returned a) b = on_success now response_time b
finish now response_time (raised e) b = on_failure now response_time b
finish now response_time (breaker_error e) b = (b, [])
finish now response_time cancelled b = (b, [])

-- A call that begins at `start` and whose function ends at `now`, with no other call in between.
unfoldable pub call :
    {A E : Type 0}
    → ℕ
    → ℕ
    → Outcome A E
    → CircuitBreaker
    → CallResult A E × CircuitBreaker × List Notice
unfolding admit finish
call start now outcome b =
    let (a, c) = admit start b in
    elim a [
      | admitted ↦
          (let (d, notices) = finish now (now - start) outcome c in (passed_on outcome, d, notices))
      | refused_open t ↦ (refused (refused_open t), c, [])
      | refused_limit ↦ (refused refused_limit, c, [])
    ]
