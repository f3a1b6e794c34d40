-- ===== src/Breaker/Transitions.antt =====
-- The private methods of `CircuitBreaker` that change its state, its constructor and its callbacks.
-- The clock reading that a method takes is its first argument.
use claude_library.Prelude.{
  ℕ, ◌+◌, ◌/◌, String, Option, none, some, List, [], ◌∷◌, ◌++◌, map, ltb, if◌then◌else◌, length,
  drop_while, append_bounded,
}
use claude_library.Prelude.Int.{sub_ℕ, ◌+ℤ◌}
use claude_library.Prelude.Key.{◌=?◌, string_key}
use claude_library.Breaker.State.{
  closed, opened, half_open, state_key, CircuitBreakerConfig, default_config, CircuitBreakerMetrics,
  no_metrics, CircuitBreaker, Notice, seconds,
}

-- `CircuitBreaker(name, config)`: a config that is still named "default" takes the breaker's name.
unfoldable pub init : String → Option CircuitBreakerConfig → ℕ → CircuitBreaker
init name given now = record {
  name = name;
  config = if c.name =? "default" then record c { name = name } else c;
  state = closed;
  state_changed_time = now;
  failure_count = 0;
  success_count = 0;
  last_failure_time = none;
  half_open_calls = 0;
  backoff_count = 0;
  current_backoff = c.timeout_duration;
  metrics = no_metrics;
  recent_failures = [];
  request_times = [];
  trip_callbacks = [];
  recovery_callbacks = [];
}
  where
    c : CircuitBreakerConfig
    c = elim given [ none ↦ default_config name | some g ↦ g ]

-- The time in the half-open state, when that state is left.
leave_half_open : ℕ → CircuitBreaker → CircuitBreakerMetrics
leave_half_open now b =
    if b.state =? half_open
    then record b.metrics {
      time_in_half_open_state = b.metrics.time_in_half_open_state +ℤ sub_ℕ now b.state_changed_time;
    }
    else b.metrics

leave_open : ℕ → CircuitBreaker → CircuitBreakerMetrics
leave_open now b =
    if b.state =? opened
    then record b.metrics {
      time_in_open_state = b.metrics.time_in_open_state +ℤ sub_ℕ now b.state_changed_time;
    }
    else b.metrics

unfoldable pub transition_to_open : ℕ → CircuitBreaker → CircuitBreaker
unfolding leave_half_open
transition_to_open now b = if b.state =? opened then b else record b {
  metrics = leave_half_open now b;
  state = opened;
  state_changed_time = now;
  success_count = 0;
}

unfoldable pub transition_to_half_open : ℕ → CircuitBreaker → CircuitBreaker
unfolding leave_open
transition_to_half_open now b = if b.state =? half_open then b else record b {
  metrics = leave_open now b;
  state = half_open;
  state_changed_time = now;
  success_count = 0;
  half_open_calls = 0;
}

unfoldable pub transition_to_closed : ℕ → CircuitBreaker → CircuitBreaker
unfolding leave_half_open leave_open
transition_to_closed now b = if b.state =? closed then b else record b {
  metrics = record left { last_recovery_time = some now };
  state = closed;
  state_changed_time = now;
  success_count = 0;
  failure_count = 0;
  backoff_count = 0;
  current_backoff = b.config.timeout_duration;
}
  where
    left : CircuitBreakerMetrics
    left = if b.state =? half_open then leave_half_open now b else leave_open now b

unfoldable pub clean_old_failures : ℕ → CircuitBreaker → CircuitBreaker
clean_old_failures now b = record b {
  recent_failures =
      drop_while (λ t. ltb (t + seconds b.config.failure_window_seconds) now) b.recent_failures;
}

unfoldable pub sum : List ℕ → ℕ
sum [] = 0
sum (x ∷ xs) = x + sum xs

-- The average over the last hundred calls, in whole microseconds.
unfoldable pub update_response_time : ℕ → CircuitBreaker → CircuitBreaker
unfolding sum
update_response_time t b = record b {
  request_times = times;
  metrics = record b.metrics { average_response_time = sum times / length times };
}
  where
    times : List ℕ
    times = append_bounded 100 b.request_times t

unfoldable pub execute_trip_callbacks : CircuitBreaker → List Notice
execute_trip_callbacks b =
    map (λ c. record { callback = c; name = b.name; state = b.state }) b.trip_callbacks

unfoldable pub execute_recovery_callbacks : CircuitBreaker → List Notice
execute_recovery_callbacks b =
    map (λ c. record { callback = c; name = b.name; state = b.state }) b.recovery_callbacks

unfoldable pub register_trip_callback : ℕ → CircuitBreaker → CircuitBreaker
register_trip_callback c b = record b { trip_callbacks = b.trip_callbacks ++ c ∷ [] }

unfoldable pub register_recovery_callback : ℕ → CircuitBreaker → CircuitBreaker
register_recovery_callback c b = record b { recovery_callbacks = b.recovery_callbacks ++ c ∷ [] }
