-- ===== src/TradingBreaker/State.antt =====
-- The data of components/trading/circuit_breakers/circuit_breaker.py. Clock readings and measured
-- times are microseconds, and the durations of a config are seconds. A `Decimal` of a config is a
-- whole number of ten-thousandths.
use claude_library.Prelude.{ℕ, ◌*◌, String, ◌≡◌, ◌↔◌, Bool, true, false, Option, none, List, arith}
use claude_library.Prelude.Int.{ℤ, pos, negsuc}
use claude_library.Prelude.Key.{Key}

pub data CircuitState : Type 0 where
  closed opened half_open : CircuitState

pub data CircuitType : Type 0 where
  trading_loss trading_position daily_loss drawdown volatility concentration : CircuitType
  connection_failure performance_latency rate_limit market_volatility : CircuitType

abbrev same_state : CircuitState → CircuitState → Bool
same_state closed closed = true
same_state opened opened = true
same_state half_open half_open = true
same_state _ _ = false

pub same_state_iff : (a b : CircuitState) → (same_state a b ≡ true) ↔ (a ≡ b)
same_state_iff a b = ground arith

instance abbrev pub state_key : Key CircuitState
state_key = record { beq = same_state; beq_iff = same_state_iff }

-- `failure_rate_threshold` is the fraction `rate_num / rate_den`, and `backoff_multiplier` is whole.
pub record CircuitBreakerConfig : Type 0 where
  pub failure_threshold : ℕ
  pub rate_num : ℕ
  pub rate_den : ℕ
  pub success_threshold : ℕ
  pub failure_window_seconds : ℕ
  pub open_timeout_seconds : ℕ
  pub half_open_timeout_seconds : ℕ
  pub adaptive_threshold : Bool
  pub min_requests_for_rate : ℕ
  pub exponential_backoff : Bool
  pub max_backoff_seconds : ℕ
  pub backoff_multiplier : ℕ
  pub daily_loss_limit_pct : ℤ
  pub max_drawdown_pct : ℤ
  pub position_limit : ℤ
  pub volatility_threshold : ℤ

abbrev pub default_config : CircuitBreakerConfig
default_config = record {
  failure_threshold = 5;
  rate_num = 1;
  rate_den = 2;
  success_threshold = 3;
  failure_window_seconds = 60;
  open_timeout_seconds = 60;
  half_open_timeout_seconds = 30;
  adaptive_threshold = true;
  min_requests_for_rate = 10;
  exponential_backoff = true;
  max_backoff_seconds = 300;
  backoff_multiplier = 2;
  daily_loss_limit_pct = negsuc 19999;
  max_drawdown_pct = negsuc 99999;
  position_limit = pos 2000;
  volatility_threshold = pos 30000;
}

pub record CircuitBreakerMetrics : Type 0 where
  pub total_requests : ℕ
  pub successful_requests : ℕ
  pub failed_requests : ℕ
  pub circuit_trips : ℕ
  pub time_in_open_state : ℤ
  pub time_in_half_open_state : ℤ
  pub average_response_time : ℕ
  pub last_failure_time : Option ℕ
  pub last_trip_time : Option ℕ
  pub last_recovery_time : Option ℕ

abbrev pub no_metrics : CircuitBreakerMetrics
no_metrics = record {
  total_requests = 0;
  successful_requests = 0;
  failed_requests = 0;
  circuit_trips = 0;
  time_in_open_state = pos 0;
  time_in_half_open_state = pos 0;
  average_response_time = 0;
  last_failure_time = none;
  last_trip_time = none;
  last_recovery_time = none;
}

-- An entry of the request history.
pub record RequestResult : Type 0 where
  pub success : Bool
  pub response_time : ℕ
  pub error_message : Option String
  pub timestamp : ℕ

-- A callback is user code: it is known by a number, and what is modelled is that it is called.
pub record CircuitBreaker : Type 0 where
  pub name : String
  pub circuit_type : CircuitType
  pub config : CircuitBreakerConfig
  pub state : CircuitState
  pub state_changed_time : ℕ
  pub metrics : CircuitBreakerMetrics
  pub request_history : List RequestResult
  pub recent_failures : List ℕ
  pub recent_successes : ℕ
  pub backoff_count : ℕ
  pub current_backoff : ℕ
  pub trip_callbacks : List ℕ
  pub recovery_callbacks : List ℕ

-- One call of a callback, with its arguments.
pub record Notice : Type 0 where
  pub callback : ℕ
  pub name : String
  pub circuit_type : CircuitType

abbrev pub seconds : ℕ → ℕ
seconds n = n * 1000000
