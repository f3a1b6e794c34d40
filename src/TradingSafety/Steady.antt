-- ===== src/TradingSafety/Steady.antt =====
-- The breakers that the code opens by hand are closed or open, never half open.
use claude_library.Prelude.{ℕ, String, ◌≢◌, Option, List, [], ◌∷◌, arith}
use claude_library.Prelude.Int.{ℤ}
use claude_library.TradingBreaker.State.{half_open, CircuitBreaker}
use claude_library.TradingBreaker.Calls.{force_open, reset}
use claude_library.TradingSafety.State.{
  Reason, TradingBreakerConfig, TradingCircuitBreakers, create,
}
use claude_library.TradingSafety.Checks.{
  trip_breaker, activate_kill_switch, clean_order_timestamps, check_daily_loss, check_drawdown,
  check_all_thresholds, record_order, check_position_concentration, record_connection_failure,
  record_connection_success,
}
use claude_library.TradingSafety.Controls.{
  reset_kill_switch, reset_breaker, reset_all, register_trip_callback, register_warning_callback,
  start_monitoring, stop_monitoring,
}
use claude_library.TradingSafety.Schedule.{
  Event, checks, orders, positions, monitoring_round, apply, run,
}

-- The code never calls these breakers, which is all that could make one half open.
pub record IsSteady (s : TradingCircuitBreakers) : Type 0 where
  pub loss : s.daily_loss_breaker.state ≢ half_open
  pub rate : s.rate_breaker.state ≢ half_open
  pub position : s.concentration_breaker.state ≢ half_open

trip_steady :
    (now : ℕ) (b : CircuitBreaker) (r : Reason) (s : TradingCircuitBreakers)
    → b.state ≢ half_open
    → (trip_breaker now b r s).0.state ≢ half_open
unfolding trip_breaker force_open
trip_steady now b r s h = ground arith

module _ (now : ℕ) (s : TradingCircuitBreakers) (v : IsSteady s) where
  IsSteady-orders : IsSteady (apply now orders s)
  unfolding apply record_order trip_breaker force_open
  IsSteady-orders = ground (arith, v.loss, v.rate, v.position)

  IsSteady-positions :
      (symbol : String) (value : ℤ) (total : Option ℤ)
      → IsSteady (apply now (positions symbol value total) s)
  unfolding apply check_position_concentration trip_breaker force_open
  IsSteady-positions symbol value total = ground (arith, v.loss, v.rate, v.position)

  loss-IsSteady : (pnl : Option ℤ) → IsSteady (check_daily_loss now pnl s).0
  unfolding check_daily_loss trip_breaker force_open
  loss-IsSteady pnl = ground (arith, v.loss, v.rate, v.position)

  drawdown-IsSteady : (pct : Option ℤ) → IsSteady (check_drawdown now pct s).0
  unfolding check_drawdown activate_kill_switch
  drawdown-IsSteady pct = ground (arith, v.loss, v.rate, v.position)

checks-IsSteady :
    (now : ℕ) (s : TradingCircuitBreakers) (pnl pct : Option ℤ)
    → IsSteady s
    → IsSteady (apply now (checks pnl pct) s)
unfolding apply monitoring_round check_all_thresholds clean_order_timestamps
checks-IsSteady now s pnl pct v =
    let l = loss-IsSteady now s v pnl in
    let d = drawdown-IsSteady now (check_daily_loss now pnl s).0 l pct in
    ground (arith, v.loss, v.rate, v.position, d.loss, d.rate, d.position)

apply-IsSteady :
    (now : ℕ) (e : Event) (s : TradingCircuitBreakers) → IsSteady s → IsSteady (apply now e s)
unfolding apply record_connection_failure record_connection_success register_trip_callback
    register_warning_callback start_monitoring stop_monitoring reset_kill_switch reset_breaker
    reset_all reset
apply-IsSteady now orders s v = IsSteady-orders now s v
apply-IsSteady now (checks pnl pct) s v = checks-IsSteady now s pnl pct v
apply-IsSteady now (positions symbol value total) s v =
    IsSteady-positions now s v symbol value total
apply-IsSteady now _ s v = ground (arith, v.loss, v.rate, v.position)

pub run-IsSteady :
    (rest : List (ℕ × Event)) (s : TradingCircuitBreakers) → IsSteady s → IsSteady (run rest s)
unfolding run
run-IsSteady [] s v = v
run-IsSteady ((now, e) ∷ rest) s v = run-IsSteady rest (apply now e s) (apply-IsSteady now e s v)

pub create-IsSteady :
    (made : ℕ) (given : Option TradingBreakerConfig) → IsSteady (create made given)
unfolding create
create-IsSteady made given = ground arith
