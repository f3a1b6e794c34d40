-- ===== src/TradingSafety/Schedule.antt =====
-- Any sequence of operations on `TradingCircuitBreakers`, each at its time.
use claude_library.Prelude.{ℕ, String, Option, List, [], ◌∷◌, if◌then◌else◌}
use claude_library.Prelude.Int.{ℤ}
use claude_library.TradingSafety.State.{TradingCircuitBreakers}
use claude_library.TradingSafety.Checks.{
  check_all_thresholds, record_order, check_position_concentration, record_connection_failure,
  record_connection_success,
}
use claude_library.TradingSafety.Controls.{
  reset_kill_switch, reset_breaker, reset_all, register_trip_callback, register_warning_callback,
  start_monitoring, stop_monitoring,
}

-- `checks` is a round of the monitoring loop, with the answers of the portfolio.
pub data Event : Type 0 where
  checks : Option ℤ → Option ℤ → Event
  orders : Event
  positions : String → ℤ → Option ℤ → Event
  connection_fails : String → Event
  connection_succeeds resets_kill_switch resets_all starts stops : Event
  resets : String → Event
  hears_trips hears_warnings : ℕ → Event

-- `_monitoring_loop`: a round is run while the flag is set.
unfoldable pub monitoring_round :
    ℕ → Option ℤ → Option ℤ → TradingCircuitBreakers → TradingCircuitBreakers
monitoring_round now pnl drawdown s =
    let (t, alerts) = check_all_thresholds now pnl drawdown s in if s.monitoring then t else s

unfoldable pub apply : ℕ → Event → TradingCircuitBreakers → TradingCircuitBreakers
unfolding monitoring_round
apply now (checks pnl drawdown) s = monitoring_round now pnl drawdown s
apply now orders s = (record_order now s).1
apply now (positions symbol value total) s =
    (check_position_concentration now symbol value total s).1
apply now (connection_fails error) s = (record_connection_failure now error s).0
apply now connection_succeeds s = (record_connection_success now s).0
apply now resets_kill_switch s = reset_kill_switch now s
apply now resets_all s = reset_all now s
apply now starts s = start_monitoring s
apply now stops s = stop_monitoring s
apply now (resets name) s = (reset_breaker now name s).1
apply now (hears_trips k) s = register_trip_callback k s
apply now (hears_warnings k) s = register_warning_callback k s

unfoldable pub run : List (ℕ × Event) → TradingCircuitBreakers → TradingCircuitBreakers
run [] s = s
run ((now, e) ∷ rest) s = run rest (apply now e s)

-- The times of the orders that `record_order` allows.
unfoldable pub allowed_now : ℕ → Event → TradingCircuitBreakers → List ℕ
allowed_now now orders s = if (record_order now s).0 then now ∷ [] else []
allowed_now now _ s = []
