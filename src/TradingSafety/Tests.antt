-- ===== src/TradingSafety/Tests.antt =====
-- The trading breakers on concrete inputs, and their theorems at inputs that meet their hypotheses.
use claude_library.Prelude.{
  ℕ, ◌≤◌, ◌≡◌, ◌↔◌, refl, true, false, none, some, List, [], ◌∷◌, arith, count_if, map,
}
use claude_library.Prelude.Int.{pos, negsuc}
use claude_library.TradingBreaker.Transitions.{init}
use claude_library.TradingSafety.State.{
  TradingBreakerConfig, default_trading_config, TradingCircuitBreakers, create,
}
use claude_library.TradingSafety.Checks.{minute, hour, record_order, trip_breaker}
use claude_library.TradingSafety.Controls.{
  can_trade, get_blocking_reasons, get_status, start_monitoring, register_trip_callback,
}
use claude_library.TradingSafety.Schedule.{
  Event, checks, orders, starts, resets_all, resets, hears_trips, run, apply, allowed_now,
}
use claude_library.TradingSafety.Windows.{in_window}
use claude_library.TradingSafety.OrderLimits.{allowed, orders_within_limits}
use claude_library.TradingSafety.Breaches.{breaches, breach_halts}
use claude_library.TradingSafety.Agreement.{subject, answers_agree}

abbrev two_orders : TradingBreakerConfig
two_orders = record default_trading_config { max_orders_per_minute = 2 }

abbrev day : List (ℕ × Event)
day =
    (1, hears_trips 7)
    ∷ (2, orders)
    ∷ (30000000, orders)
    ∷ (40000000, orders)
    ∷ (60000003, orders)
    ∷ []

-- The third order within a minute is refused, the fourth comes later.
allowed-day : allowed day (create 0 (some two_orders)) ≡ 2 ∷ 30000000 ∷ 60000003 ∷ []
unfolding allowed allowed_now apply create record_order register_trip_callback trip_breaker init
allowed-day = refl

orders_within_limits_example :
    let s = create 0 (some two_orders) in
    (count_if (in_window minute 61000000) (allowed day s) ≤ s.config.max_orders_per_minute)
    × (count_if (in_window hour 61000000) (allowed day s) ≤ s.config.max_orders_per_hour)
orders_within_limits_example =
    orders_within_limits 0 (some two_orders) day 61000000
      (omega arith, (omega arith, (omega arith, (omega arith, (omega arith, tt)))))

abbrev opening : List (ℕ × Event)
opening = (1, starts) ∷ []

-- A daily loss of two percent and a half.
breach_halts_example :
    can_trade
      (apply 5 (checks (some (negsuc 24999)) none) (run opening (create 0 (some two_orders))))
    ≡ false
unfolding breaches run apply start_monitoring create
breach_halts_example =
    breach_halts 0 (some two_orders) opening 5 (checks (some (negsuc 24999)) none) refl

abbrev afternoon : List (ℕ × Event)
afternoon =
    (80000000000, resets_all)
    ∷ (90000000000, checks (some (pos 100)) (some (pos 0)))
    ∷ (90000000001, resets "max_drawdown")
    ∷ []

abbrev stopped : TradingCircuitBreakers
stopped =
    apply 5 (checks none (some (negsuc 299999))) (start_monitoring (create 0 (some two_orders)))

answers_agree_example :
    ((can_trade stopped ≡ true) ↔ (get_blocking_reasons stopped ≡ []))
    × ((can_trade stopped ≡ true) ↔ ((get_status 6 stopped).blocking_breakers ≡ []))
    × (map subject (get_blocking_reasons stopped) ≡ (get_status 6 stopped).blocking_breakers)
answers_agree_example = answers_agree 6 stopped
