-- ===== src/TradingBreaker/Window.antt =====
-- A recovery of the trading breaker does not forget the failures in the window.
use claude_library.Prelude.{
  ℕ, ◌+◌, ◌≤◌, String, ◌≡◌, List, [], ◌∷◌, ◌++◌, arith, All, length, length-append, drop_while, ltb,
}
use claude_library.TradingBreaker.State.{closed, opened, half_open, CircuitBreaker, seconds}
use claude_library.TradingBreaker.Calls.{record_success, record_failure}

-- Every failure that is on record is within the window.
abbrev pub AllRecent : ℕ → CircuitBreaker → Type 0
AllRecent now b = All (λ t. now ≤ t + seconds b.config.failure_window_seconds) b.recent_failures

drop_while_none :
    (w now : ℕ) (xs : List ℕ)
    → All (λ t. now ≤ t + w) xs
    → drop_while (λ t. ltb (t + w) now) (xs ++ now ∷ []) ≡ xs ++ now ∷ []
drop_while_none w now [] h = ground arith
drop_while_none w now (x ∷ xs) h = ground arith

-- A closed breaker whose record holds one failure less than the threshold, all within the window,
-- trips at the next failure.
trips_at :
    (now t : ℕ) (e : String) (b : CircuitBreaker)
    → b.state ≡ closed
    → b.config.failure_threshold ≤ length b.recent_failures + 1
    → AllRecent now b
    → (record_failure now t e b).0.state ≡ opened
unfolding record_failure
trips_at now t e b c l h =
    let k = drop_while_none (seconds b.config.failure_window_seconds) now b.recent_failures h in
    ground (arith, k, length-append b.recent_failures (now ∷ []))

recovered_state :
    (at : ℕ) (t : ℕ) (b : CircuitBreaker)
    → b.state ≡ half_open
    → b.config.success_threshold ≤ b.recent_successes + 1
    → let r = (record_success at t b).0 in
      (r.state ≡ closed) × (r.recent_failures ≡ b.recent_failures) × (r.config ≡ b.config)
unfolding record_success
recovered_state at t b h s = ground arith

-- A recovery keeps the record of failures. Where that holds as many failures as the threshold wants
-- but one, all within the window, the breaker closes with the last successful test, and the first
-- failure after that opens it again.
pub recovery_remembers :
    (at took now t : ℕ) (e : String) (b : CircuitBreaker)
    → b.state ≡ half_open
    → b.config.success_threshold ≤ b.recent_successes + 1
    → b.config.failure_threshold ≤ length b.recent_failures + 1
    → AllRecent now b
    → let r = (record_success at took b).0 in
      (r.state ≡ closed) × ((record_failure now t e r).0.state ≡ opened)
recovery_remembers at took now t e b h s l a =
    let r = recovered_state at took b h s in
    (r.0, trips_at now t e (record_success at took b).0 r.0 (rw (r.2, r.1) l) (rw (r.2, r.1) a))
