-- ===== src/TradingSafety/Breaches.antt =====
-- The limits of the configuration, and what follows when one is broken.
use claude_library.Prelude.{
  ℕ, ◌≡◌, Bool, true, false, not, ◌&&◌, ◌||◌, Option, none, some, List, arith, leb, count_if,
}
use claude_library.Prelude.Int.{ℤ, pos, leb_ℤ}
use claude_library.TradingBreaker.State.{opened}
use claude_library.TradingBreaker.Calls.{force_open}
use claude_library.TradingSafety.State.{TradingBreakerConfig, TradingCircuitBreakers, create}
use claude_library.TradingSafety.Checks.{
  minute, hour, within, over, trip_breaker, activate_kill_switch, clean_order_timestamps,
  check_daily_loss, check_drawdown, check_all_thresholds, record_order,
  check_position_concentration,
}
use claude_library.TradingSafety.Controls.{can_trade}
use claude_library.TradingSafety.Schedule.{
  Event, checks, orders, positions, connection_fails, connection_succeeds, resets_kill_switch,
  resets_all, starts, stops, resets, hears_trips, hears_warnings, monitoring_round, apply, run,
}
use claude_library.TradingSafety.Steady.{IsSteady, run-IsSteady, create-IsSteady}
use claude_library.TradingSafety.Halts.{IsHalted, halted_cannot_trade, loss_keeps, drawdown_keeps}

-- A change in percent that is at or below the limit.
unfoldable pub reaches : ℤ → Option ℤ → Bool
reaches limit none = false
reaches limit (some x) = leb_ℤ x limit

-- The event breaks a limit of the configuration.
unfoldable pub breaches : ℕ → Event → TradingCircuitBreakers → Bool
unfolding reaches
breaches now (checks pnl pct) s =
    s.monitoring
    && (reaches s.config.daily_loss_limit_pct pnl || reaches s.config.max_drawdown_pct pct)
breaches now orders s =
    leb s.config.max_orders_per_minute (count_if (within minute now) s.order_timestamps)
    || leb s.config.max_orders_per_hour (count_if (within hour now) s.order_timestamps)
breaches now (positions symbol value (some total)) s =
    not (leb_ℤ total (pos 0)) && over value total s.config.max_position_pct
breaches _ _ _ = false

drawdown_kills :
    (now : ℕ) (s : TradingCircuitBreakers) (pct : Option ℤ)
    → reaches s.config.max_drawdown_pct pct ≡ true
    → (check_drawdown now pct s).0.kill_switch_active ≡ true
unfolding check_drawdown activate_kill_switch reaches
drawdown_kills now s pct h = ground arith

module _ (now : ℕ) (s : TradingCircuitBreakers) (v : IsSteady s) where
  loss_trips :
      (pnl : Option ℤ)
      → reaches s.config.daily_loss_limit_pct pnl ≡ true
      → (check_daily_loss now pnl s).0.daily_loss_breaker.state ≡ opened
  unfolding check_daily_loss trip_breaker force_open reaches
  loss_trips pnl h = ground (arith, v.loss)

  checks_breach :
      (pnl pct : Option ℤ)
      → breaches now (checks pnl pct) s ≡ true
      → IsHalted (apply now (checks pnl pct) s)
  unfolding breaches apply monitoring_round check_all_thresholds clean_order_timestamps
  checks_breach pnl pct h =
      let t = (check_daily_loss now pnl s).0 in
      ground (
        arith,
        loss_trips pnl,
        (loss_keeps now s pnl).0,
        drawdown_keeps now t pct,
        drawdown_kills now t pct,
      )

  breach : (e : Event) → breaches now e s ≡ true → IsHalted (apply now e s)
  unfolding breaches apply record_order check_position_concentration trip_breaker force_open
  breach (checks pnl pct) h = checks_breach pnl pct h
  breach orders h = ground (arith, v.rate)
  breach (positions symbol value (some total)) h = ground (arith, v.position)
  breach (positions symbol value none) h = ground arith
  breach (connection_fails error) h = ground arith
  breach connection_succeeds h = ground arith
  breach resets_kill_switch h = ground arith
  breach resets_all h = ground arith
  breach starts h = ground arith
  breach stops h = ground arith
  breach (resets name) h = ground arith
  breach (hears_trips k) h = ground arith
  breach (hears_warnings k) h = ground arith

-- Whatever came before, an event that breaks a limit of the configuration (the daily loss or the
-- drawdown in a round of the monitoring, the number of orders, the size of a position) stops trading at
-- once: right after it, `can_trade` is false.
pub breach_halts :
    (made : ℕ) (given : Option TradingBreakerConfig) (before : List (ℕ × Event)) (now : ℕ)
    (e : Event)
    → breaches now e (run before (create made given)) ≡ true
    → can_trade (apply now e (run before (create made given))) ≡ false
breach_halts made given before now e h =
    let s = run before (create made given) in
    let v = run-IsSteady before (create made given) (create-IsSteady made given) in
    halted_cannot_trade (apply now e s) (breach now s v e h)
