-- ===== src/Breaker/Tripping.antt =====
-- How many consecutive failures open a closed breaker.
use claude_library.Prelude.{ℕ, ◌+◌, ◌<◌, String, ◌≡◌, List, [], ◌∷◌, arith, length}
use claude_library.Breaker.State.{closed, opened, CircuitBreaker}
use claude_library.Breaker.Calls.{raised, call}

-- The breaker after calls whose functions raise, each given by its start, its end and its error.
pub failed_calls : List (ℕ × ℕ × String) → CircuitBreaker → CircuitBreaker
failed_calls [] b = b
failed_calls ((start, now, e) ∷ s) b = failed_calls s (call {A = Unit} start now (raised e) b).1

module _ (start now : ℕ) (e : String) (b : CircuitBreaker) (c : b.state ≡ closed) where
  failed_below :
      b.failure_count + 1 < b.config.failure_threshold
      → b.metrics.total_requests + 1 < b.config.min_requests_for_rate
      → let d = (call {A = Unit {0}} start now (raised e) b).1 in
        (d.state ≡ closed)
        × (d.failure_count ≡ b.failure_count + 1)
        × (d.metrics.total_requests ≡ b.metrics.total_requests + 1)
        × (d.config ≡ b.config)
  unfolding call
  failed_below f r = ground arith

  failed_at :
      b.failure_count + 1 ≡ b.config.failure_threshold
      → (call {A = Unit {0}} start now (raised e) b).1.state ≡ opened
  unfolding call
  failed_at f = ground arith

-- While the failure rate does not count yet, a closed breaker stays closed as long as fewer failures
-- than the threshold have followed one another, and counts them.
failed_calls_below :
    (s : List (ℕ × ℕ × String)) (b : CircuitBreaker)
    → b.state ≡ closed
    → b.failure_count + length s < b.config.failure_threshold
    → b.metrics.total_requests + length s < b.config.min_requests_for_rate
    → ((failed_calls s b).state ≡ closed)
      × ((failed_calls s b).failure_count ≡ b.failure_count + length s)
unfolding failed_calls
failed_calls_below [] b c f r = (c, omega arith)
failed_calls_below ((start, now, e) ∷ s) b c f r = ground (
  arith,
  failed_below start now e b c,
  failed_calls_below s (call {A = Unit {0}} start now (raised e) b).1,
)

-- While the failure rate does not count yet, the failing call that makes the failures that follow one
-- another as many as the threshold opens a closed breaker.
pub failed_calls_trip :
    (s : List (ℕ × ℕ × String)) (start now : ℕ) (e : String) (b : CircuitBreaker)
    → b.state ≡ closed
    → b.failure_count + length s + 1 ≡ b.config.failure_threshold
    → b.metrics.total_requests + length s < b.config.min_requests_for_rate
    → (call {A = Unit {0}} start now (raised e) (failed_calls s b)).1.state ≡ opened
unfolding failed_calls
failed_calls_trip [] start now e b c f r = failed_at start now e b c (omega arith)
failed_calls_trip ((start', now', e') ∷ s) start now e b c f r = ground (
  arith,
  failed_below start' now' e' b c,
  failed_calls_trip s start now e (call {A = Unit {0}} start' now' (raised e') b).1,
)
