-- ===== src/TradingSafety/Checks.antt =====
-- The operations of `TradingCircuitBreakers` that watch the thresholds. `none` from the portfolio is an
-- exception, which every check catches.
use claude_library.Prelude.{
  ℕ, ◌+◌, String, Bool, true, false, not, ◌&&◌, Option, none, some, List, [], ◌∷◌, ◌++◌, map, ltb,
  leb, if◌then◌else◌, count_if, filter,
}
use claude_library.Prelude.Int.{ℤ, pos, ◌*ℤ◌, ltb_ℤ, leb_ℤ}
use claude_library.Prelude.Key.{◌=?◌}
use claude_library.TradingBreaker.State.{closed, opened, state_key, CircuitBreaker}
use claude_library.TradingBreaker.Calls.{call, force_open, raised, returned}
use claude_library.TradingSafety.State.{
  Reason, daily_loss_breached, daily_loss_warned, drawdown_breached, drawdown_warned,
  minute_rate_exceeded, hourly_rate_exceeded, concentration_exceeded, concentration_warned,
  connection_lost, Alert, trip_call, warning_call, breaker_call, TradingCircuitBreakers,
}

abbrev pub minute : ℕ
minute = 60000000

abbrev pub hour : ℕ
hour = 3600000000

unfoldable pub execute_trip_callbacks : String → Reason → TradingCircuitBreakers → List Alert
execute_trip_callbacks name reason s = map (λ k. trip_call k name reason) s.on_trip_callbacks

unfoldable pub trigger_warning : String → Reason → TradingCircuitBreakers → List Alert
trigger_warning name message s = map (λ k. warning_call k name message) s.on_warning_callbacks

-- `_trip_breaker` on the breaker that it is given, which the caller puts back.
unfoldable pub trip_breaker :
    ℕ → CircuitBreaker → Reason → TradingCircuitBreakers → CircuitBreaker × List Alert
unfolding execute_trip_callbacks
trip_breaker now b reason s =
    if b.state =? closed
    then (let (c, notices) = force_open now b in
        (c, map breaker_call notices ++ execute_trip_callbacks b.name reason s))
    else (b, [])

unfoldable pub activate_kill_switch :
    ℕ → Reason → TradingCircuitBreakers → TradingCircuitBreakers × List Alert
unfolding execute_trip_callbacks
activate_kill_switch now reason s =
    if s.kill_switch_active
    then (s, [])
    else (let (c, notices) = force_open now s.drawdown_breaker in
        (
          record s {
            kill_switch_active = true;
            kill_switch_reason = some reason;
            drawdown_breaker = c;
          },
          map breaker_call notices ++ execute_trip_callbacks "kill_switch" reason s,
        ))

unfoldable pub check_daily_loss :
    ℕ → Option ℤ → TradingCircuitBreakers → TradingCircuitBreakers × List Alert
unfolding trip_breaker trigger_warning
check_daily_loss now none s = (s, [])
check_daily_loss now (some pnl) s =
    let limit = s.config.daily_loss_limit_pct in
    let (b, alerts) = trip_breaker now s.daily_loss_breaker (daily_loss_breached pnl limit) s in
    if leb_ℤ pnl limit
    then (record s { daily_loss_breaker = b }, alerts)
    else if leb_ℤ pnl s.config.daily_loss_warning_pct
    then (s, trigger_warning "daily_loss" (daily_loss_warned pnl s.config.daily_loss_warning_pct) s)
    else (s, [])

-- The warning comes first; it is left out when the limit is reached too.
unfoldable pub check_drawdown :
    ℕ → Option ℤ → TradingCircuitBreakers → TradingCircuitBreakers × List Alert
unfolding activate_kill_switch trigger_warning
check_drawdown now none s = (s, [])
check_drawdown now (some pct) s =
    let c = s.config in
    let warnings =
      if leb_ℤ pct c.drawdown_warning_pct && ltb_ℤ c.max_drawdown_pct pct
      then trigger_warning "max_drawdown" (drawdown_warned pct c.drawdown_warning_pct) s
      else [] in
    let (t, alerts) = activate_kill_switch now (drawdown_breached pct c.max_drawdown_pct) s in
    if leb_ℤ pct c.max_drawdown_pct then (t, warnings ++ alerts) else (s, warnings)

-- `ts > now - 1 hour`.
abbrev pub within : ℕ → ℕ → ℕ → Bool
within width now ts = ltb now (ts + width)

unfoldable pub clean_order_timestamps : ℕ → TradingCircuitBreakers → TradingCircuitBreakers
clean_order_timestamps now s = record s {
  order_timestamps = filter (within hour now) s.order_timestamps;
}

unfoldable pub check_all_thresholds :
    ℕ → Option ℤ → Option ℤ → TradingCircuitBreakers → TradingCircuitBreakers × List Alert
unfolding check_daily_loss check_drawdown clean_order_timestamps
check_all_thresholds now pnl drawdown s =
    let (t, alerts) = check_daily_loss now pnl s in
    let (u, more) = check_drawdown now drawdown t in (clean_order_timestamps now u, alerts ++ more)

unfoldable pub record_order :
    ℕ → TradingCircuitBreakers → Bool × TradingCircuitBreakers × List Alert
unfolding trip_breaker
record_order now s =
    let c = s.config in
    let last_minute = count_if (within minute now) s.order_timestamps in
    let last_hour = count_if (within hour now) s.order_timestamps in
    let (b, alerts) =
      trip_breaker now s.rate_breaker (minute_rate_exceeded last_minute c.max_orders_per_minute)
        s in
    let (d, hourly_alerts) =
      trip_breaker now s.rate_breaker (hourly_rate_exceeded last_hour c.max_orders_per_hour) s in
    if leb c.max_orders_per_minute last_minute
    then (false, record s { rate_breaker = b }, alerts)
    else if leb c.max_orders_per_hour last_hour
    then (false, record s { rate_breaker = d }, hourly_alerts)
    else (true, record s { order_timestamps = s.order_timestamps ++ now ∷ [] }, [])

-- `value / total * 100 > pct`, for a positive total, by cross multiplication.
abbrev pub over : ℤ → ℤ → ℤ → Bool
over value total pct = ltb_ℤ (pct *ℤ total) (value *ℤ pos 1000000)

unfoldable pub check_position_concentration :
    ℕ → String → ℤ → Option ℤ → TradingCircuitBreakers → Bool × TradingCircuitBreakers × List Alert
unfolding trip_breaker trigger_warning
check_position_concentration now symbol value none s = (true, s, [])
check_position_concentration now symbol value (some total) s =
    let (b, alerts) = trip_breaker now s.concentration_breaker (concentration_exceeded symbol) s in
    if leb_ℤ total (pos 0)
    then (true, s, [])
    else if over value total s.config.max_position_pct
    then (false, record s { concentration_breaker = b }, alerts)
    else if over value total s.config.position_warning_pct
    then (true, s, trigger_warning "position_concentration" (concentration_warned symbol) s)
    else (true, s, [])

-- A call of the connection breaker whose function raises at once.
unfoldable pub record_connection_failure :
    ℕ → String → TradingCircuitBreakers → TradingCircuitBreakers × List Alert
unfolding execute_trip_callbacks
record_connection_failure now error s =
    let (result, b, notices) = call {A = Unit} now now (raised error) s.connection_breaker in
    (
      record s { connection_breaker = b },
      map breaker_call notices
          ++ (if b.state =? opened && not (s.connection_breaker.state =? opened)
              then execute_trip_callbacks "connection" (connection_lost error) s
              else []),
    )

unfoldable pub record_connection_success :
    ℕ → TradingCircuitBreakers → TradingCircuitBreakers × List Alert
record_connection_success now s =
    let (result, b, notices) = call now now (returned true) s.connection_breaker in
    (record s { connection_breaker = b }, map breaker_call notices)
