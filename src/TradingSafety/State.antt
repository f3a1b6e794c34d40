-- ===== src/TradingSafety/State.antt =====
-- The data of components/trading/circuit_breakers/trading_breakers.py. Percentages and amounts are whole
-- numbers of ten-thousandths, clock readings are microseconds.
use claude_library.Prelude.{ℕ, String, Bool, true, false, Option, none, some, List, [], ◌∷◌}
use claude_library.Prelude.Int.{ℤ, pos, negsuc}
use claude_library.TradingBreaker.State.{
  daily_loss, drawdown, concentration, volatility, rate_limit, connection_failure,
  CircuitBreakerConfig, default_config, CircuitBreaker, Notice,
}
use claude_library.TradingBreaker.Transitions.{init}
use claude_library.TradingBreaker.Manager.{CircuitBreakerManager}

-- `check_interval_seconds`, a float, is in microseconds.
pub record TradingBreakerConfig : Type 0 where
  pub daily_loss_limit_pct : ℤ
  pub daily_loss_warning_pct : ℤ
  pub max_drawdown_pct : ℤ
  pub drawdown_warning_pct : ℤ
  pub max_position_pct : ℤ
  pub position_warning_pct : ℤ
  pub volatility_std_threshold : ℤ
  pub volatility_lookback_days : ℕ
  pub max_orders_per_minute : ℕ
  pub max_orders_per_hour : ℕ
  pub connection_failure_threshold : ℕ
  pub connection_timeout_seconds : ℕ
  pub check_interval : ℕ
  pub cooldown_seconds : ℕ
  pub auto_recovery : Bool
  pub require_manual_reset : Bool

abbrev pub default_trading_config : TradingBreakerConfig
default_trading_config = record {
  daily_loss_limit_pct = negsuc 19999;
  daily_loss_warning_pct = negsuc 14999;
  max_drawdown_pct = negsuc 99999;
  drawdown_warning_pct = negsuc 69999;
  max_position_pct = pos 200000;
  position_warning_pct = pos 150000;
  volatility_std_threshold = pos 30000;
  volatility_lookback_days = 20;
  max_orders_per_minute = 10;
  max_orders_per_hour = 100;
  connection_failure_threshold = 3;
  connection_timeout_seconds = 30;
  check_interval = 1000000;
  cooldown_seconds = 300;
  auto_recovery = false;
  require_manual_reset = true;
}

-- The texts that go with a trip or a warning, by what they show. The percentages in the texts on a
-- concentration are left out.
pub data Reason : Type 0 where
  daily_loss_breached daily_loss_warned drawdown_breached drawdown_warned : ℤ → ℤ → Reason
  minute_rate_exceeded hourly_rate_exceeded : ℕ → ℕ → Reason
  concentration_exceeded concentration_warned : String → Reason
  connection_lost : String → Reason

-- One call of a callback. Callbacks are user code and known by a number; a callback that raises is
-- logged and the next one is called.
pub data Alert : Type 0 where
  trip_call warning_call : ℕ → String → Reason → Alert
  breaker_call : Notice → Alert

-- The six breakers are held here; the manager holds the same six objects by name.
pub record TradingCircuitBreakers : Type 0 where
  pub config : TradingBreakerConfig
  pub monitoring : Bool
  pub daily_loss_breaker : CircuitBreaker
  pub drawdown_breaker : CircuitBreaker
  pub concentration_breaker : CircuitBreaker
  pub volatility_breaker : CircuitBreaker
  pub rate_breaker : CircuitBreaker
  pub connection_breaker : CircuitBreaker
  pub order_timestamps : List ℕ
  pub on_trip_callbacks : List ℕ
  pub on_warning_callbacks : List ℕ
  pub kill_switch_active : Bool
  pub kill_switch_reason : Option Reason

-- `self.manager` as a dict from names to the breakers' present states.
abbrev pub manager : TradingCircuitBreakers → CircuitBreakerManager
manager s =
    ("daily_loss", s.daily_loss_breaker)
    ∷ ("max_drawdown", s.drawdown_breaker)
    ∷ ("position_concentration", s.concentration_breaker)
    ∷ ("volatility", s.volatility_breaker)
    ∷ ("rate_limit", s.rate_breaker)
    ∷ ("connection", s.connection_breaker)
    ∷ []

abbrev pub daily_loss_config : TradingBreakerConfig → CircuitBreakerConfig
daily_loss_config c = record default_config {
  failure_threshold = 1;
  open_timeout_seconds = c.cooldown_seconds;
  exponential_backoff = false;
}

abbrev pub drawdown_config : CircuitBreakerConfig
drawdown_config = record default_config {
  failure_threshold = 1;
  open_timeout_seconds = 86400;
  exponential_backoff = false;
}

abbrev pub concentration_config : CircuitBreakerConfig
concentration_config = record default_config {
  failure_threshold = 1;
  open_timeout_seconds = 60;
  exponential_backoff = false;
}

abbrev pub volatility_config : CircuitBreakerConfig
volatility_config = record default_config {
  failure_threshold = 1;
  open_timeout_seconds = 300;
  exponential_backoff = true;
  max_backoff_seconds = 3600;
}

abbrev pub rate_config : TradingBreakerConfig → CircuitBreakerConfig
rate_config c = record default_config {
  failure_threshold = c.max_orders_per_minute;
  failure_window_seconds = 60;
  open_timeout_seconds = 60;
  exponential_backoff = true;
}

abbrev pub connection_config : TradingBreakerConfig → CircuitBreakerConfig
connection_config c = record default_config {
  failure_threshold = c.connection_failure_threshold;
  open_timeout_seconds = c.connection_timeout_seconds;
  exponential_backoff = true;
  max_backoff_seconds = 300;
}

-- `__init__` with `_init_breakers`. A falsy `config` is replaced by the default, which a dataclass
-- never is.
unfoldable pub create : ℕ → Option TradingBreakerConfig → TradingCircuitBreakers
unfolding init
create now given =
    let c : TradingBreakerConfig = elim given [ none ↦ default_trading_config | some g ↦ g ] in
    record {
      config = c;
      monitoring = false;
      daily_loss_breaker = init "daily_loss" daily_loss (some (daily_loss_config c)) now;
      drawdown_breaker = init "max_drawdown" drawdown (some drawdown_config) now;
      concentration_breaker =
          init "position_concentration" concentration (some concentration_config) now;
      volatility_breaker = init "volatility" volatility (some volatility_config) now;
      rate_breaker = init "rate_limit" rate_limit (some (rate_config c)) now;
      connection_breaker = init "connection" connection_failure (some (connection_config c)) now;
      order_timestamps = [];
      on_trip_callbacks = [];
      on_warning_callbacks = [];
      kill_switch_active = false;
      kill_switch_reason = none;
    }
