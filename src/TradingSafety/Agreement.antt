-- ===== src/TradingSafety/Agreement.antt =====
-- The three answers to the question whether trading is blocked.
use claude_library.Prelude.{
  ℕ, String, ◌≡◌, ◌≢◌, refl, ◌↔◌, true, false, List, [], ◌∷◌, arith, map, Bool-cases, inl, inr, ap,
  sym, ◌∙◌,
}
use claude_library.Prelude.Dict.{lookup}
use claude_library.TradingBreaker.State.{opened, CircuitBreaker}
use claude_library.TradingBreaker.Manager.{CircuitBreakerManager, get_open_breakers, any_open}
use claude_library.TradingSafety.State.{TradingCircuitBreakers, manager}
use claude_library.TradingSafety.Controls.{
  can_trade, Blocking, breaker, blocking_line, blocking_lines, get_blocking_reasons, names_in,
  get_status, StatusLine, kill_switch_line, breaker_line, kill_switch,
}

names_of_open : (m : CircuitBreakerManager) → names_in opened m ≡ get_open_breakers m
unfolding names_in get_open_breakers
names_of_open [] = refl
names_of_open ((name, b) ∷ m) = ground (arith, names_of_open m)

none_open : (m : CircuitBreakerManager) → any_open m ≡ false → get_open_breakers m ≡ []
unfolding any_open get_open_breakers
none_open [] h = refl
none_open ((name, b) ∷ m) h = ground (arith, none_open m)

abbrev line : String → CircuitBreaker → List Blocking
line name b = breaker name b.state b.metrics.circuit_trips ∷ []

-- Each of the six names leads to its own breaker.
named_lines :
    (s : TradingCircuitBreakers)
    → let m = manager s in
      (blocking_line m "daily_loss" ≡ line "daily_loss" s.daily_loss_breaker)
      × (blocking_line m "max_drawdown" ≡ line "max_drawdown" s.drawdown_breaker)
      × (blocking_line m "position_concentration"
          ≡ line "position_concentration" s.concentration_breaker)
      × (blocking_line m "volatility" ≡ line "volatility" s.volatility_breaker)
      × (blocking_line m "rate_limit" ≡ line "rate_limit" s.rate_breaker)
      × (blocking_line m "connection" ≡ line "connection" s.connection_breaker)
unfolding blocking_line lookup
named_lines s = (refl, refl, refl, refl, refl, refl)

-- A breaker that is open is the head of the list, under a name that the manager knows.
some_open :
    (s : TradingCircuitBreakers)
    → any_open (manager s) ≡ true
    → blocking_lines (manager s) (get_open_breakers (manager s)) ≢ []
unfolding any_open get_open_breakers blocking_lines
some_open s h = ground (arith, named_lines s)

-- What a line of `get_blocking_reasons` is about, as the status names it.
abbrev pub subject : Blocking → StatusLine
subject (kill_switch reason) = kill_switch_line reason
subject (breaker name state trips) = breaker_line name

-- The line of each of the six names is about the breaker of this name.
named_subjects :
    (s : TradingCircuitBreakers)
    → map subject (blocking_lines (manager s) (get_open_breakers (manager s)))
      ≡ map breaker_line (get_open_breakers (manager s))
unfolding blocking_lines get_open_breakers
named_subjects s = ground (arith, named_lines s)

reasons_empty : (s : TradingCircuitBreakers) → (can_trade s ≡ true) ↔ (get_blocking_reasons s ≡ [])
unfolding can_trade get_blocking_reasons blocking_lines
reasons_empty s = ground (arith, none_open (manager s), some_open s)

same_subjects :
    (now : ℕ) (s : TradingCircuitBreakers)
    → map subject (get_blocking_reasons s) ≡ (get_status now s).blocking_breakers
unfolding get_blocking_reasons get_status
same_subjects now s = elim (Bool-cases s.kill_switch_active) [
  | inl e ↦
      rw (e, names_of_open (manager s))
        (ap (λ l. kill_switch_line s.kill_switch_reason ∷ l) (named_subjects s))
  | inr e ↦ rw (e, names_of_open (manager s)) (named_subjects s)
]

map-empty : (l : List Blocking) → (l ≡ []) ↔ (map subject l ≡ [])
map-empty [] = (λ h. refl, λ h. refl)
map-empty (x ∷ l) = (λ h. absurd (cc h), λ h. absurd (cc h))

-- `can_trade` allows trading exactly when `get_blocking_reasons` has no reason against it, and exactly
-- when `get_status` lists nothing as blocking: the two lists are about the same things in the same
-- order, the kill switch with its reason first, where it is active, and then each open breaker.
pub answers_agree :
    (now : ℕ) (s : TradingCircuitBreakers)
    → ((can_trade s ≡ true) ↔ (get_blocking_reasons s ≡ []))
      × ((can_trade s ≡ true) ↔ ((get_status now s).blocking_breakers ≡ []))
      × (map subject (get_blocking_reasons s) ≡ (get_status now s).blocking_breakers)
unfolding can_trade get_blocking_reasons get_status
answers_agree now s =
    let r = reasons_empty s in
    let m = map-empty (get_blocking_reasons s) in
    let e = same_subjects now s in (r, (λ h. sym e ∙ m.0 (r.0 h), λ h. r.1 (m.1 (e ∙ h))), e)
