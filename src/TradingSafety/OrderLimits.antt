-- ===== src/TradingSafety/OrderLimits.antt =====
-- The limits on orders, over any window of time.
use claude_library.Prelude.{
  either_branch, ℕ, ◌≤◌, ◌<◌, ◌≡◌, refl, ap, ◌∙◌, sym, true, false, Option, List, [], ◌∷◌, ◌++◌,
  arith, count_if, filter, Bool-cases, inl, inr,
}
use mathlib.Core.List.{append-nil, append_assoc}
use claude_library.Prelude.Int.{ℤ}
use claude_library.TradingSafety.State.{TradingBreakerConfig, TradingCircuitBreakers, create}
use claude_library.TradingSafety.Checks.{
  minute, hour, within, activate_kill_switch, clean_order_timestamps, check_daily_loss,
  check_drawdown, check_all_thresholds, record_order, check_position_concentration,
  record_connection_failure, record_connection_success,
}
use claude_library.TradingSafety.Controls.{
  reset_kill_switch, reset_breaker, reset_all, register_trip_callback, register_warning_callback,
  start_monitoring, stop_monitoring,
}
use claude_library.TradingSafety.Schedule.{
  Event, checks, orders, positions, connection_fails, connection_succeeds, resets_kill_switch,
  resets_all, starts, stops, resets, hears_trips, hears_warnings, monitoring_round, apply,
  allowed_now,
}
use claude_library.TradingSafety.Windows.{
  in_window, count-filter, filter-filter, filter-append, Fits, Fits-grow,
}

-- The times of all orders that a schedule lets through.
unfoldable pub allowed : List (ℕ × Event) → TradingCircuitBreakers → List ℕ
allowed [] s = []
allowed ((now, e) ∷ rest) s = allowed_now now e s ++ allowed rest (apply now e s)

-- The clock is not set back.
abbrev pub AreTimely : ℕ → List (ℕ × Event) → Type 0
AreTimely clock [] = Unit
AreTimely clock ((now, e) ∷ rest) = (clock ≤ now) × AreTimely now rest

-- `acc` are the orders so far. The code has forgotten those that were an hour old at `cut`.
record IsWithin (clock : ℕ) (acc : List ℕ) (s : TradingCircuitBreakers) : Type 0 where
  cut : ℕ
  cut_le : cut ≤ clock
  kept : s.order_timestamps ≡ filter (within hour cut) acc
  by_minute : Fits minute s.config.max_orders_per_minute acc
  by_hour : Fits hour s.config.max_orders_per_hour acc

module _ (now : ℕ) (pnl drawdown : Option ℤ) (s : TradingCircuitBreakers) where
  checked_config : (check_all_thresholds now pnl drawdown s).0.config ≡ s.config
  unfolding check_all_thresholds check_daily_loss check_drawdown clean_order_timestamps
      activate_kill_switch
  checked_config = ground arith

  checked_timestamps :
      (check_all_thresholds now pnl drawdown s).0.order_timestamps
      ≡ filter (within hour now) s.order_timestamps
  unfolding check_all_thresholds check_daily_loss check_drawdown clean_order_timestamps
      activate_kill_switch
  checked_timestamps = ground arith

module _ (clock now : ℕ) (acc : List ℕ) (s : TradingCircuitBreakers) (later : clock ≤ now)
    (v : IsWithin clock acc s) where
  count_kept :
      (width : ℕ)
      → width ≤ hour
      → count_if (within width now) s.order_timestamps ≡ count_if (within width now) acc
  count_kept width w = rw v.kept (count-filter width v.cut now acc w (omega (arith, v.cut_le)))

  admitted :
      (record_order now s).0 ≡ true
      → ((record_order now s).1 ≡ record s { order_timestamps = s.order_timestamps ++ now ∷ [] })
        × (count_if (within minute now) s.order_timestamps < s.config.max_orders_per_minute)
        × (count_if (within hour now) s.order_timestamps < s.config.max_orders_per_hour)
  unfolding record_order
  admitted h = ground arith

  turned_away :
      (record_order now s).0 ≡ false
      → ((record_order now s).1.order_timestamps ≡ s.order_timestamps)
        × ((record_order now s).1.config ≡ s.config)
  unfolding record_order
  turned_away h = ground arith

  -- An operation that keeps the configuration and forgets at most what is an hour old.
  keeps-IsWithin :
      (t : TradingCircuitBreakers)
      → t.config ≡ s.config
      → t.order_timestamps ≡ s.order_timestamps
      → IsWithin now acc t
  keeps-IsWithin t c o = record {
    cut = v.cut;
    cut_le = omega (arith, v.cut_le);
    kept = o ∙ v.kept;
    by_minute = rw c v.by_minute;
    by_hour = rw c v.by_hour;
  }

  cleans-IsWithin :
      (t : TradingCircuitBreakers)
      → t.config ≡ s.config
      → t.order_timestamps ≡ filter (within hour now) s.order_timestamps
      → IsWithin now acc t
  cleans-IsWithin t c o = record {
    cut = now;
    cut_le = omega arith;
    kept =
        o
        ∙ ap (filter (within hour now)) v.kept
        ∙ filter-filter v.cut now acc (omega (arith, v.cut_le));
    by_minute = rw c v.by_minute;
    by_hour = rw c v.by_hour;
  }

  grows-IsWithin :
      count_if (within minute now) s.order_timestamps < s.config.max_orders_per_minute
      → count_if (within hour now) s.order_timestamps < s.config.max_orders_per_hour
      → IsWithin now
          (acc ++ now ∷ [])
          (record s { order_timestamps = s.order_timestamps ++ now ∷ [] })
  grows-IsWithin m h = record {
    cut = v.cut;
    cut_le = omega (arith, v.cut_le);
    kept =
        ap (λ xs. xs ++ now ∷ []) v.kept
        ∙ sym (filter-append v.cut now acc (omega (arith, v.cut_le)));
    by_minute =
        Fits-grow minute _ now acc v.by_minute (omega (arith, count_kept minute (omega arith), m));
    by_hour = Fits-grow hour _ now acc v.by_hour (omega (arith, count_kept hour (omega arith), h));
  }

  order-IsWithin : IsWithin now (acc ++ allowed_now now orders s) (apply now orders s)
  unfolding allowed_now apply
  order-IsWithin = elim (Bool-cases (record_order now s).0) [
    | inl e ↦ let (t, m, h) = admitted e in rw (e, t) (grows-IsWithin m h)
    | inr e ↦
        let (o, c) = turned_away e in
        rw (e, append-nil acc) (keeps-IsWithin (record_order now s).1 c o)
  ]

  check-IsWithin :
      (pnl drawdown : Option ℤ) → IsWithin now acc (monitoring_round now pnl drawdown s)
  unfolding monitoring_round
  check-IsWithin pnl drawdown =
      either_branch (IsWithin now acc) s.monitoring
        (cleans-IsWithin (check_all_thresholds now pnl drawdown s).0
          (checked_config now pnl drawdown s) (checked_timestamps now pnl drawdown s))
        (keeps-IsWithin s refl refl)

  step-IsWithin : (e : Event) → IsWithin now (acc ++ allowed_now now e s) (apply now e s)
  unfolding apply record_connection_failure record_connection_success reset_kill_switch
      reset_breaker reset_all register_trip_callback register_warning_callback start_monitoring
      stop_monitoring allowed_now check_position_concentration
  step-IsWithin orders = order-IsWithin
  step-IsWithin (checks p d) = rw (append-nil acc) (check-IsWithin p d)
  step-IsWithin (positions symbol value total) =
      rw (append-nil acc) (keeps-IsWithin _ (ground arith) (ground arith))
  step-IsWithin (connection_fails x) = rw (append-nil acc) (keeps-IsWithin _ refl refl)
  step-IsWithin connection_succeeds = rw (append-nil acc) (keeps-IsWithin _ refl refl)
  step-IsWithin resets_kill_switch =
      rw (append-nil acc) (keeps-IsWithin _ (ground arith) (ground arith))
  step-IsWithin resets_all = rw (append-nil acc) (keeps-IsWithin _ refl refl)
  step-IsWithin starts = rw (append-nil acc) (keeps-IsWithin _ refl refl)
  step-IsWithin stops = rw (append-nil acc) (keeps-IsWithin _ refl refl)
  step-IsWithin (resets name) = rw (append-nil acc) (keeps-IsWithin _ refl refl)
  step-IsWithin (hears_trips k) = rw (append-nil acc) (keeps-IsWithin _ refl refl)
  step-IsWithin (hears_warnings k) = rw (append-nil acc) (keeps-IsWithin _ refl refl)

config-apply :
    (now : ℕ) (e : Event) (s : TradingCircuitBreakers) → (apply now e s).config ≡ s.config
unfolding apply record_connection_failure record_connection_success reset_kill_switch reset_breaker
    reset_all register_trip_callback register_warning_callback start_monitoring stop_monitoring
    check_position_concentration monitoring_round record_order
config-apply now (checks p d) s = ground (arith, checked_config now p d s)
config-apply now _ s = ground arith

run-IsWithin :
    (clock : ℕ) (acc : List ℕ) (rest : List (ℕ × Event)) (s : TradingCircuitBreakers)
    → AreTimely clock rest
    → IsWithin clock acc s
    → Fits minute s.config.max_orders_per_minute (acc ++ allowed rest s)
      × Fits hour s.config.max_orders_per_hour (acc ++ allowed rest s)
unfolding allowed
run-IsWithin clock acc [] s h v = rw (append-nil acc) (v.by_minute, v.by_hour)
run-IsWithin clock acc ((now, e) ∷ rest) s (later, h) v =
    let r =
      run-IsWithin now (acc ++ allowed_now now e s) rest (apply now e s) h
        (step-IsWithin clock now acc s later v e) in
    let c = config-apply now e s in
    let a = append_assoc acc (allowed_now now e s) (allowed rest (apply now e s)) in
    (
      λ t.
          omega (
            arith,
            r.0 t,
            ap (λ k. k.max_orders_per_minute) c,
            ap (count_if (in_window minute t)) a,
          ),
      λ t.
          omega
            (arith, r.1 t, ap (λ k. k.max_orders_per_hour) c, ap (count_if (in_window hour t)) a),
    )

-- However the portfolio, the connections and the resets behave, no minute and no hour contains more
-- allowed orders than its limit, if the clock is not set back.
pub orders_within_limits :
    (made : ℕ) (given : Option TradingBreakerConfig) (schedule : List (ℕ × Event)) (t : ℕ)
    → AreTimely made schedule
    → let s = create made given in
      (count_if (in_window minute t) (allowed schedule s) ≤ s.config.max_orders_per_minute)
      × (count_if (in_window hour t) (allowed schedule s) ≤ s.config.max_orders_per_hour)
unfolding create
orders_within_limits made given schedule t h =
    let r = run-IsWithin made [] schedule (create made given) h (record {
      cut = made;
      cut_le = omega arith;
      kept = refl;
      by_minute = λ u. omega arith;
      by_hour = λ u. omega arith;
    }) in
    (r.0 t, r.1 t)
