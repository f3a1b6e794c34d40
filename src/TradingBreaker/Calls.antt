-- ===== src/TradingBreaker/Calls.antt =====
-- The calls of `CircuitBreaker`. Neither `_record_success` nor `_record_failure` with its trip awaits
-- before its callbacks run: within an event loop each is one step.
use claude_library.Prelude.{
  ℕ, ◌+◌, ◌-◌, ◌*◌, ◌^◌, min, String, Bool, true, false, ◌&&◌, none, some, List, [], ◌∷◌, ◌++◌, ltb,
  leb, if◌then◌else◌, length, count_if, append_bounded,
}
use claude_library.Prelude.Key.{◌=?◌}
use claude_library.TradingBreaker.State.{
  CircuitState, closed, opened, half_open, state_key, no_metrics, RequestResult, CircuitBreaker,
  Notice, seconds,
}
use claude_library.TradingBreaker.Transitions.{
  transition_to_open, transition_to_half_open, transition_to_closed, clean_old_failures,
  update_average_response_time, execute_trip_callbacks, execute_recovery_callbacks,
}

-- `_can_make_request`, by the state: the closed and the half-open state let every request through.
may_request : ℕ → CircuitState → CircuitBreaker → Bool × CircuitBreaker
unfolding transition_to_half_open
may_request now closed b = (true, b)
may_request now half_open b = (true, b)
may_request now opened b =
    if ltb now (b.state_changed_time + seconds b.current_backoff)
    then (false, b)
    else (true, transition_to_half_open now b)

unfoldable pub can_make_request : ℕ → CircuitBreaker → Bool × CircuitBreaker
unfolding may_request
can_make_request now b = may_request now b.state b

count_success : ℕ → ℕ → CircuitBreaker → CircuitBreaker
unfolding update_average_response_time
count_success now t b =
    let c = update_average_response_time t (record b {
      metrics = record b.metrics {
        total_requests = b.metrics.total_requests + 1;
        successful_requests = b.metrics.successful_requests + 1;
      };
    }) in
    record c {
      request_history =
          append_bounded 1000 c.request_history
            (record { success = true; response_time = t; error_message = none; timestamp = now });
    }

-- The branch of `_record_success` on the state.
settle_success : ℕ → CircuitState → CircuitBreaker → CircuitBreaker × List Notice
unfolding transition_to_closed execute_recovery_callbacks clean_old_failures
settle_success now half_open b =
    let c = record b { recent_successes = b.recent_successes + 1 } in
    if leb c.config.success_threshold c.recent_successes
    then (let d = transition_to_closed now c in (d, execute_recovery_callbacks d))
    else (c, [])
settle_success now closed b = (clean_old_failures now b, [])
settle_success now opened b = (b, [])

unfoldable pub record_success : ℕ → ℕ → CircuitBreaker → CircuitBreaker × List Notice
unfolding count_success settle_success
record_success now t b = let c = count_success now t b in settle_success now c.state c

unfoldable pub should_trip_circuit : ℕ → CircuitBreaker → Bool
should_trip_circuit now b =
    if b.state =? closed
    then (if leb b.config.failure_threshold recent_failure_count then true else by_rate)
    else false
  where
    recent_failure_count : ℕ
    recent_failure_count = length b.recent_failures

    total_recent : ℕ
    total_recent =
        count_if
          (λ (r : RequestResult). leb now (r.timestamp + seconds b.config.failure_window_seconds))
          b.request_history

    by_rate : Bool
    by_rate =
        leb b.config.min_requests_for_rate total_recent
        && ltb 0 total_recent
        && leb (b.config.rate_num * total_recent) (recent_failure_count * b.config.rate_den)

unfoldable pub trip_circuit : ℕ → CircuitBreaker → CircuitBreaker × List Notice
unfolding transition_to_open execute_trip_callbacks
trip_circuit now b =
    let o = transition_to_open now b in
    let c = record o {
      metrics = record o.metrics {
        circuit_trips = o.metrics.circuit_trips + 1;
        last_trip_time = some now;
      };
    } in
    let d =
      if c.config.exponential_backoff
      then record c {
        current_backoff =
            min (c.config.open_timeout_seconds * c.config.backoff_multiplier ^ c.backoff_count)
              c.config.max_backoff_seconds;
        backoff_count = c.backoff_count + 1;
      }
      else record c { current_backoff = c.config.open_timeout_seconds } in
    (d, execute_trip_callbacks d)

count_failure : ℕ → ℕ → String → CircuitBreaker → CircuitBreaker
unfolding clean_old_failures
count_failure now t e b = clean_old_failures now (record b {
  metrics = record b.metrics {
    total_requests = b.metrics.total_requests + 1;
    failed_requests = b.metrics.failed_requests + 1;
    last_failure_time = some now;
  };
  request_history =
      append_bounded 1000 b.request_history
        (record { success = false; response_time = t; error_message = some e; timestamp = now });
  recent_failures = b.recent_failures ++ now ∷ [];
})

unfoldable pub record_failure : ℕ → ℕ → String → CircuitBreaker → CircuitBreaker × List Notice
unfolding count_failure should_trip_circuit trip_circuit transition_to_open
record_failure now t e b =
    let c = count_failure now t e b in
    if should_trip_circuit now c
    then trip_circuit now c
    else if c.state =? half_open
    then (transition_to_open now c, [])
    else (c, [])

-- What the protected function does. `circuit_open` is the `CircuitOpenException` of a breaker further
-- in, and `cancelled` is an exception outside `Exception`, such as `asyncio.CancelledError`.
pub data Outcome (A : Type 0) : Type 0 where
  returned : A → Outcome A
  raised circuit_open : String → Outcome A
  cancelled : Outcome A

pub data CallResult (A : Type 0) : Type 0 where
  circuit_is_open : CallResult A
  passed_on : Outcome A → CallResult A

finish : {A : Type 0} → ℕ → ℕ → Outcome A → CircuitBreaker → CircuitBreaker × List Notice
unfolding record_success record_failure
finish now t (returned a) b = record_success now t b
finish now t (raised e) b = record_failure now t e b
finish now t (circuit_open e) b = (b, [])
finish now t cancelled b = (b, [])

-- A refused request counts as failed, and not as a request.
refuse : CircuitBreaker → CircuitBreaker
refuse b = record b {
  metrics = record b.metrics { failed_requests = b.metrics.failed_requests + 1 };
}

-- A call that begins at `start` and whose function ends at `now`, with no other call in between.
unfoldable pub call :
    {A : Type 0} → ℕ → ℕ → Outcome A → CircuitBreaker → CallResult A × CircuitBreaker × List Notice
unfolding can_make_request finish refuse
call start now outcome b =
    let (allowed, c) = can_make_request start b in
    let (d, notices) = finish now (now - start) outcome c in
    if allowed then (passed_on outcome, d, notices) else (circuit_is_open, refuse c, [])

unfoldable pub force_open : ℕ → CircuitBreaker → CircuitBreaker × List Notice
unfolding transition_to_open execute_trip_callbacks
force_open now b = let c = transition_to_open now b in (c, execute_trip_callbacks c)

unfoldable pub force_close : ℕ → CircuitBreaker → CircuitBreaker × List Notice
unfolding transition_to_closed execute_recovery_callbacks
force_close now b = let c = transition_to_closed now b in (c, execute_recovery_callbacks c)

unfoldable pub reset : ℕ → CircuitBreaker → CircuitBreaker
reset now b = record b {
  state = closed;
  state_changed_time = now;
  metrics = no_metrics;
  request_history = [];
  recent_failures = [];
  recent_successes = 0;
  backoff_count = 0;
  current_backoff = b.config.open_timeout_seconds;
}

-- The steps of a breaker: the start of a request that is admitted or refused, its end, and the manual
-- interventions. A schedule is any sequence of them, with the time of each.
pub data Event : Type 0 where
  requests : Event
  succeeds : ℕ → Event
  fails : ℕ → String → Event
  forces_open forces_close resets : Event

-- The head of `call`: a refusal is counted.
unfoldable pub request : ℕ → CircuitBreaker → CircuitBreaker
unfolding can_make_request refuse
request now b = let (allowed, c) = can_make_request now b in if allowed then c else refuse c

unfoldable pub apply : ℕ → Event → CircuitBreaker → CircuitBreaker
apply now requests b = request now b
apply now (succeeds t) b = (record_success now t b).0
apply now (fails t e) b = (record_failure now t e b).0
apply now forces_open b = (force_open now b).0
apply now forces_close b = (force_close now b).0
apply now resets b = reset now b

unfoldable pub run : List (ℕ × Event) → CircuitBreaker → CircuitBreaker
run [] b = b
run ((now, e) ∷ s) b = run s (apply now e b)
