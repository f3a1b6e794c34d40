-- ===== src/Breaker/State.antt =====
-- The data of components/utilities/circuit_breaker/circuit_breaker.py. Clock readings and measured
-- times are microseconds, and the durations of a config are seconds.
use claude_library.Prelude.{ℕ, ◌*◌, String, ◌≡◌, ◌↔◌, Bool, true, false, Option, none, List, arith}
use claude_library.Prelude.Int.{ℤ, pos}
use claude_library.Prelude.Key.{Key}

pub data CircuitState : Type 0 where
  closed opened half_open : CircuitState

abbrev same_state : CircuitState → CircuitState → Bool
same_state closed closed = true
same_state opened opened = true
same_state half_open half_open = true
same_state _ _ = false

pub same_state_iff : (a b : CircuitState) → (same_state a b ≡ true) ↔ (a ≡ b)
same_state_iff a b = ground arith

instance abbrev pub state_key : Key CircuitState
state_key = record { beq = same_state; beq_iff = same_state_iff }

-- `failure_rate_threshold` is the fraction `rate_num / rate_den`, and `backoff_multiplier` is whole.
pub record CircuitBreakerConfig : Type 0 where
  pub failure_threshold : ℕ
  pub rate_num : ℕ
  pub rate_den : ℕ
  pub success_threshold : ℕ
  pub failure_window_seconds : ℕ
  pub timeout_duration : ℕ
  pub half_open_max_calls : ℕ
  pub exponential_backoff : Bool
  pub backoff_multiplier : ℕ
  pub max_backoff_seconds : ℕ
  pub min_requests_for_rate : ℕ
  pub name : String

abbrev pub default_config : String → CircuitBreakerConfig
default_config name = record {
  failure_threshold = 5;
  rate_num = 1;
  rate_den = 2;
  success_threshold = 3;
  failure_window_seconds = 60;
  timeout_duration = 60;
  half_open_max_calls = 3;
  exponential_backoff = true;
  backoff_multiplier = 2;
  max_backoff_seconds = 300;
  min_requests_for_rate = 10;
  name = name;
}

-- The times are signed: a clock may be set back between two readings.
pub record CircuitBreakerMetrics : Type 0 where
  pub total_requests : ℕ
  pub successful_requests : ℕ
  pub failed_requests : ℕ
  pub circuit_trips : ℕ
  pub time_in_open_state : ℤ
  pub time_in_half_open_state : ℤ
  pub average_response_time : ℕ
  pub last_failure_time : Option ℕ
  pub last_trip_time : Option ℕ
  pub last_recovery_time : Option ℕ

abbrev pub no_metrics : CircuitBreakerMetrics
no_metrics = record {
  total_requests = 0;
  successful_requests = 0;
  failed_requests = 0;
  circuit_trips = 0;
  time_in_open_state = pos 0;
  time_in_half_open_state = pos 0;
  average_response_time = 0;
  last_failure_time = none;
  last_trip_time = none;
  last_recovery_time = none;
}

-- A callback is user code: it is known by a number, and what is modelled is that it is called.
pub record CircuitBreaker : Type 0 where
  pub name : String
  pub config : CircuitBreakerConfig
  pub state : CircuitState
  pub state_changed_time : ℕ
  pub failure_count : ℕ
  pub success_count : ℕ
  pub last_failure_time : Option ℕ
  pub half_open_calls : ℕ
  pub backoff_count : ℕ
  pub current_backoff : ℕ
  pub metrics : CircuitBreakerMetrics
  pub recent_failures : List ℕ
  pub request_times : List ℕ
  pub trip_callbacks : List ℕ
  pub recovery_callbacks : List ℕ

-- One call of a callback, with its arguments.
pub record Notice : Type 0 where
  pub callback : ℕ
  pub name : String
  pub state : CircuitState

abbrev pub seconds : ℕ → ℕ
seconds n = n * 1000000
