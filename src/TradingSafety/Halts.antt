-- ===== src/TradingSafety/Halts.antt =====
-- What stops trading, and that nothing but `reset_kill_switch` ends the kill switch.
use claude_library.Prelude.{ℕ, ◌≡◌, ◌⊎◌, Bool, true, false, Option, List, [], ◌∷◌, arith}
use claude_library.Prelude.Int.{ℤ}
use claude_library.TradingBreaker.State.{opened}
use claude_library.TradingBreaker.Manager.{any_open}
use claude_library.TradingSafety.State.{TradingCircuitBreakers}
use claude_library.TradingSafety.Checks.{
  trip_breaker, activate_kill_switch, clean_order_timestamps, check_daily_loss, check_drawdown,
  check_all_thresholds, record_order, check_position_concentration, record_connection_failure,
  record_connection_success,
}
use claude_library.TradingSafety.Controls.{
  can_trade, reset_breaker, reset_all, register_trip_callback, register_warning_callback,
  start_monitoring, stop_monitoring,
}
use claude_library.TradingSafety.Schedule.{
  Event, checks, resets_kill_switch, monitoring_round, apply, run,
}

-- What a breach leaves.
abbrev pub IsHalted : TradingCircuitBreakers → Type 0
IsHalted s =
    (s.kill_switch_active ≡ true)
    ⊎ (s.daily_loss_breaker.state ≡ opened)
    ⊎ (s.rate_breaker.state ≡ opened)
    ⊎ (s.concentration_breaker.state ≡ opened)

pub halted_cannot_trade : (s : TradingCircuitBreakers) → IsHalted s → can_trade s ≡ false
unfolding can_trade any_open
halted_cannot_trade s h = ground arith

module _ (now : ℕ) (s : TradingCircuitBreakers) where
  pub loss_keeps :
      (pnl : Option ℤ)
      → let t = (check_daily_loss now pnl s).0 in
        (t.config ≡ s.config)
        × (t.kill_switch_active ≡ s.kill_switch_active)
        × (t.rate_breaker ≡ s.rate_breaker)
        × (t.concentration_breaker ≡ s.concentration_breaker)
        × (s.daily_loss_breaker.state ≡ opened → t.daily_loss_breaker.state ≡ opened)
  unfolding check_daily_loss trip_breaker
  loss_keeps pnl = ground arith

  pub drawdown_keeps :
      (pct : Option ℤ)
      → let t = (check_drawdown now pct s).0 in
        (s.kill_switch_active ≡ true → t.kill_switch_active ≡ true)
        × (t.rate_breaker ≡ s.rate_breaker)
        × (t.concentration_breaker ≡ s.concentration_breaker)
        × (t.daily_loss_breaker ≡ s.daily_loss_breaker)
  unfolding check_drawdown activate_kill_switch
  drawdown_keeps pct = ground arith

-- Only `reset_kill_switch` switches it off.
abbrev pub is_switch_off : Event → Bool
is_switch_off resets_kill_switch = true
is_switch_off _ = false

abbrev pub LeaveSwitch : List (ℕ × Event) → Type 0
LeaveSwitch [] = Unit
LeaveSwitch ((now, e) ∷ rest) = (is_switch_off e ≡ false) × LeaveSwitch rest

apply-kill_switch :
    (now : ℕ) (e : Event) (s : TradingCircuitBreakers)
    → is_switch_off e ≡ false
    → s.kill_switch_active ≡ true
    → (apply now e s).kill_switch_active ≡ true
unfolding apply monitoring_round check_all_thresholds clean_order_timestamps record_order
    check_position_concentration trip_breaker record_connection_failure record_connection_success
    register_trip_callback register_warning_callback start_monitoring stop_monitoring reset_breaker
    reset_all
apply-kill_switch now (checks pnl pct) s n h =
    ground
      (arith, (loss_keeps now s pnl).0, (drawdown_keeps now (check_daily_loss now pnl s).0 pct).0)
apply-kill_switch now _ s n h = ground arith

pub run-kill_switch :
    (rest : List (ℕ × Event)) (s : TradingCircuitBreakers)
    → LeaveSwitch rest
    → s.kill_switch_active ≡ true
    → (run rest s).kill_switch_active ≡ true
unfolding run
run-kill_switch [] s n h = h
run-kill_switch ((now, e) ∷ rest) s (n, ns) h =
    run-kill_switch rest (apply now e s) ns (apply-kill_switch now e s n h)
