-- ===== src/TradingSafety/Controls.antt =====
-- The queries of `TradingCircuitBreakers`, the manual resets and the registration of callbacks.
use claude_library.Prelude.{
  ℕ, String, Bool, true, false, not, Option, none, some, List, [], ◌∷◌, ◌++◌, if◌then◌else◌, map,
}
use Prim.Native.String.{◌++◌ as ◌<>◌}
use claude_library.Prelude.Key.{◌=?◌, string_key}
use claude_library.Prelude.Dict.{lookup, contains}
use claude_library.TradingBreaker.State.{CircuitState, opened, half_open, state_key, CircuitBreaker}
use claude_library.TradingBreaker.Calls.{reset}
use claude_library.TradingBreaker.Manager.{
  CircuitBreakerManager, SystemStatus, get_system_status, get_open_breakers, any_open, is_in,
}
use claude_library.TradingSafety.State.{Reason, TradingCircuitBreakers, manager}

unfoldable pub can_trade : TradingCircuitBreakers → Bool
unfolding any_open
can_trade s = if s.kill_switch_active then false else not (any_open (manager s))

-- The lines of `get_blocking_reasons`: the kill switch, or a breaker with its state and its trips.
pub data Blocking : Type 0 where
  kill_switch : Option Reason → Blocking
  breaker : String → CircuitState → ℕ → Blocking

unfoldable pub blocking_line : CircuitBreakerManager → String → List Blocking
blocking_line m name = elim (lookup name m) [
  | none ↦ []
  | some b ↦ breaker name b.state b.metrics.circuit_trips ∷ []
]

unfoldable pub blocking_lines : CircuitBreakerManager → List String → List Blocking
unfolding blocking_line
blocking_lines m [] = []
blocking_lines m (name ∷ names) = blocking_line m name ++ blocking_lines m names

unfoldable pub get_blocking_reasons : TradingCircuitBreakers → List Blocking
unfolding blocking_lines get_open_breakers
get_blocking_reasons s =
    (if s.kill_switch_active then kill_switch s.kill_switch_reason ∷ [] else [])
    ++ blocking_lines (manager s) (get_open_breakers (manager s))

-- The lines of the status: `kill_switch: <reason>`, or the name of an open breaker.
pub data StatusLine : Type 0 where
  kill_switch_line : Option Reason → StatusLine
  breaker_line : String → StatusLine

-- The two percentages of the status are the constant 0 in the code.
pub record TradingBreakerStatus : Type 0 where
  pub timestamp : ℕ
  pub can_trade : Bool
  pub blocking_breakers : List StatusLine
  pub warning_breakers : List String
  pub details : SystemStatus

unfoldable pub names_in : CircuitState → CircuitBreakerManager → List String
names_in state [] = []
names_in state ((name, b) ∷ m) =
    let rest = names_in state m in if is_in state b then name ∷ rest else rest

unfoldable pub get_status : ℕ → TradingCircuitBreakers → TradingBreakerStatus
unfolding names_in
get_status now s = record {
  timestamp = now;
  can_trade = can_trade s;
  blocking_breakers =
      (if s.kill_switch_active then kill_switch_line s.kill_switch_reason ∷ [] else [])
      ++ map breaker_line (names_in opened (manager s));
  warning_breakers = map (λ name. name <> " (recovering)") (names_in half_open (manager s));
  details = get_system_status (manager s);
}

unfoldable pub reset_kill_switch : ℕ → TradingCircuitBreakers → TradingCircuitBreakers
reset_kill_switch now s =
    if s.kill_switch_active
    then record s {
      kill_switch_active = false;
      kill_switch_reason = none;
      drawdown_breaker = reset now s.drawdown_breaker;
    }
    else s

-- The breaker that the manager knows by the name is the one that is reset.
reset_named : ℕ → String → String → CircuitBreaker → CircuitBreaker
reset_named now name own b = if name =? own then reset now b else b

unfoldable pub reset_breaker : ℕ → String → TradingCircuitBreakers → Bool × TradingCircuitBreakers
unfolding reset_named
reset_breaker now name s = (
  contains name (manager s),
  record s {
    daily_loss_breaker = reset_named now name "daily_loss" s.daily_loss_breaker;
    drawdown_breaker = reset_named now name "max_drawdown" s.drawdown_breaker;
    concentration_breaker = reset_named now name "position_concentration" s.concentration_breaker;
    volatility_breaker = reset_named now name "volatility" s.volatility_breaker;
    rate_breaker = reset_named now name "rate_limit" s.rate_breaker;
    connection_breaker = reset_named now name "connection" s.connection_breaker;
  },
)

unfoldable pub reset_all : ℕ → TradingCircuitBreakers → TradingCircuitBreakers
reset_all now s = record s {
  daily_loss_breaker = reset now s.daily_loss_breaker;
  drawdown_breaker = reset now s.drawdown_breaker;
  concentration_breaker = reset now s.concentration_breaker;
  volatility_breaker = reset now s.volatility_breaker;
  rate_breaker = reset now s.rate_breaker;
  connection_breaker = reset now s.connection_breaker;
}

unfoldable pub register_trip_callback : ℕ → TradingCircuitBreakers → TradingCircuitBreakers
register_trip_callback k s = record s { on_trip_callbacks = s.on_trip_callbacks ++ k ∷ [] }

unfoldable pub register_warning_callback : ℕ → TradingCircuitBreakers → TradingCircuitBreakers
register_warning_callback k s = record s { on_warning_callbacks = s.on_warning_callbacks ++ k ∷ [] }

-- The task of the loop is the flag that its rounds test.
unfoldable pub start_monitoring : TradingCircuitBreakers → TradingCircuitBreakers
start_monitoring s = record s { monitoring = true }

unfoldable pub stop_monitoring : TradingCircuitBreakers → TradingCircuitBreakers
stop_monitoring s = record s { monitoring = false }
