-- ===== src/TradingBreaker/Backoff.antt =====
-- The exponential backoff of the trading breaker. Only a trip from the closed state lengthens the wait,
-- and to be closed again is to start over: the exponent is always 0.
use Prim.Native.Nat.pow
use claude_library.Prelude.{ℕ, ◌*◌, ◌^◌, ◌≤◌, min, String, ◌≡◌, ◌⊎◌, Option, List, [], ◌∷◌, arith}
use claude_library.TradingBreaker.State.{closed, CircuitType, CircuitBreakerConfig, CircuitBreaker}
use claude_library.TradingBreaker.Transitions.{init}
use claude_library.TradingBreaker.Calls.{
  record_success, record_failure, force_open, force_close, reset, request, Event, requests,
  succeeds, fails, forces_open, forces_close, resets, apply, run,
}

abbrev pub timeout : CircuitBreaker → ℕ
timeout b = b.config.open_timeout_seconds

-- The wait is the timeout, or, after a trip and until the circuit is closed again, the timeout cut off
-- at the maximum.
pub record IsFlat (b : CircuitBreaker) : Type 0 where
  pub wait :
      (b.current_backoff ≡ timeout b)
      ⊎ (b.current_backoff ≡ min (timeout b) b.config.max_backoff_seconds)
  pub trips : b.backoff_count ≤ 1
  pub closed_count : b.state ≡ closed → b.backoff_count ≡ 0

pow_zero : (a c : ℕ) → a * c ^ 0 ≡ a
pow_zero a c = rw (pow.zero c) (omega arith)

module _ (now : ℕ) (b : CircuitBreaker) (v : IsFlat b) where
  apply-IsFlat : (e : Event) → IsFlat (apply now e b)
  unfolding apply request record_success record_failure force_open force_close reset
  apply-IsFlat requests = ground arith
  apply-IsFlat (succeeds t) = ground arith
  apply-IsFlat (fails t e) =
      ground (arith, pow_zero b.config.open_timeout_seconds b.config.backoff_multiplier)
  apply-IsFlat forces_open = ground arith
  apply-IsFlat forces_close = ground arith
  apply-IsFlat resets = ground arith

run_from-IsFlat : (s : List (ℕ × Event)) (b : CircuitBreaker) → IsFlat b → IsFlat (run s b)
unfolding run
run_from-IsFlat [] b v = v
run_from-IsFlat ((now, e) ∷ s) b v = run_from-IsFlat s (apply now e b) (apply-IsFlat now b v e)

init-IsFlat :
    (name : String) (kind : CircuitType) (c : Option CircuitBreakerConfig) (now : ℕ)
    → IsFlat (init name kind c now)
unfolding init
init-IsFlat name kind c now = ground arith

-- Whatever the multiplier and whatever the schedule, the wait of a breaker never grows beyond its
-- timeout: a failed test call does not trip it, and recovery sets its count of trips to 0, so that the
-- multiplier is only ever raised to 0.
pub run-IsFlat :
    (name : String) (kind : CircuitType) (c : Option CircuitBreakerConfig) (made : ℕ)
    (s : List (ℕ × Event))
    → IsFlat (run s (init name kind c made))
run-IsFlat name kind c made s =
    run_from-IsFlat s (init name kind c made) (init-IsFlat name kind c made)
