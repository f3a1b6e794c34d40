-- ===== src/TradingBreaker/Transitions.antt =====
-- The private methods of `CircuitBreaker` that change its state, its constructor and its callbacks.
-- The clock reading that a method takes is its first argument.
use claude_library.Prelude.{
  ℕ, ◌+◌, ◌*◌, ◌/◌, String, Option, none, some, List, [], ◌∷◌, ◌++◌, map, ltb, if◌then◌else◌, ◌==◌,
  drop_while,
}
use claude_library.Prelude.Int.{sub_ℕ, ◌+ℤ◌}
use claude_library.Prelude.Key.{◌=?◌}
use claude_library.TradingBreaker.State.{
  closed, opened, half_open, state_key, CircuitType, CircuitBreakerConfig, default_config,
  CircuitBreakerMetrics, no_metrics, CircuitBreaker, Notice, seconds,
}

unfoldable pub init : String → CircuitType → Option CircuitBreakerConfig → ℕ → CircuitBreaker
init name kind given now = record {
  name = name;
  circuit_type = kind;
  config = c;
  state = closed;
  state_changed_time = now;
  metrics = no_metrics;
  request_history = [];
  recent_failures = [];
  recent_successes = 0;
  backoff_count = 0;
  current_backoff = c.open_timeout_seconds;
  trip_callbacks = [];
  recovery_callbacks = [];
}
  where
    c : CircuitBreakerConfig
    c = elim given [ none ↦ default_config | some g ↦ g ]

-- The time in the half-open state, when that state is left.
leave_half_open : ℕ → CircuitBreaker → CircuitBreakerMetrics
leave_half_open now b =
    if b.state =? half_open
    then record b.metrics {
      time_in_half_open_state = b.metrics.time_in_half_open_state +ℤ sub_ℕ now b.state_changed_time;
    }
    else b.metrics

leave_open : ℕ → CircuitBreaker → CircuitBreakerMetrics
leave_open now b =
    if b.state =? opened
    then record b.metrics {
      time_in_open_state = b.metrics.time_in_open_state +ℤ sub_ℕ now b.state_changed_time;
    }
    else b.metrics

unfoldable pub transition_to_open : ℕ → CircuitBreaker → CircuitBreaker
unfolding leave_half_open
transition_to_open now b = if b.state =? opened then b else record b {
  metrics = leave_half_open now b;
  state = opened;
  state_changed_time = now;
  recent_successes = 0;
}

unfoldable pub transition_to_half_open : ℕ → CircuitBreaker → CircuitBreaker
unfolding leave_open
transition_to_half_open now b = if b.state =? half_open then b else record b {
  metrics = leave_open now b;
  state = half_open;
  state_changed_time = now;
  recent_successes = 0;
}

unfoldable pub transition_to_closed : ℕ → CircuitBreaker → CircuitBreaker
unfolding leave_half_open leave_open
transition_to_closed now b = if b.state =? closed then b else record b {
  metrics = record left { last_recovery_time = some now };
  state = closed;
  state_changed_time = now;
  recent_successes = 0;
  backoff_count = 0;
  current_backoff = b.config.open_timeout_seconds;
}
  where
    left : CircuitBreakerMetrics
    left = if b.state =? half_open then leave_half_open now b else leave_open now b

unfoldable pub clean_old_failures : ℕ → CircuitBreaker → CircuitBreaker
clean_old_failures now b = record b {
  recent_failures =
      drop_while (λ t. ltb (t + seconds b.config.failure_window_seconds) now) b.recent_failures;
}

-- The moving average with weight 0.1, in whole microseconds.
unfoldable pub update_average_response_time : ℕ → CircuitBreaker → CircuitBreaker
update_average_response_time t b = record b {
  metrics = record b.metrics {
    average_response_time =
        if b.metrics.total_requests == 1 then t else (t + 9 * b.metrics.average_response_time) / 10;
  };
}

unfoldable pub execute_trip_callbacks : CircuitBreaker → List Notice
execute_trip_callbacks b =
    map (λ c. record { callback = c; name = b.name; circuit_type = b.circuit_type })
      b.trip_callbacks

unfoldable pub execute_recovery_callbacks : CircuitBreaker → List Notice
execute_recovery_callbacks b =
    map (λ c. record { callback = c; name = b.name; circuit_type = b.circuit_type })
      b.recovery_callbacks

unfoldable pub register_trip_callback : ℕ → CircuitBreaker → CircuitBreaker
register_trip_callback c b = record b { trip_callbacks = b.trip_callbacks ++ c ∷ [] }

unfoldable pub register_recovery_callback : ℕ → CircuitBreaker → CircuitBreaker
register_recovery_callback c b = record b { recovery_callbacks = b.recovery_callbacks ++ c ∷ [] }
