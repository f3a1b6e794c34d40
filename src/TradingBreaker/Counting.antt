-- ===== src/TradingBreaker/Counting.antt =====
-- What the metrics of the trading breaker count.
use claude_library.Prelude.{
  ℕ, ◌+◌, ◌≤◌, ◌<◌, String, ◌≡◌, ◌≢◌, refl, max, true, false, Option, none, some, List, [], ◌∷◌,
  arith, length, length-append_bounded,
}
use claude_library.TradingBreaker.State.{
  opened, half_open, CircuitType, CircuitBreakerConfig, CircuitBreaker, seconds,
}
use claude_library.TradingBreaker.Transitions.{init}
use claude_library.TradingBreaker.Calls.{
  record_success, record_failure, force_open, force_close, reset, request, Event, requests,
  succeeds, fails, forces_open, forces_close, resets, apply, run, Outcome, circuit_is_open, call,
}

pub record IsCounted (b : CircuitBreaker) : Type 0 where
  -- Every request is one that succeeded or failed; refusals may add to the failures.
  pub covered : b.metrics.total_requests ≤ b.metrics.successful_requests + b.metrics.failed_requests
  pub succeeded : b.metrics.successful_requests ≤ b.metrics.total_requests
  -- Successes count in the half-open state only, and one that reaches the threshold closes it.
  pub tests : b.state ≢ half_open → b.recent_successes ≡ 0
  pub below : b.recent_successes < max 1 b.config.success_threshold
  pub history : length b.request_history ≤ 1000

module _ (now : ℕ) (b : CircuitBreaker) (v : IsCounted b) where
  apply-IsCounted : (e : Event) → IsCounted (apply now e b)
  unfolding apply request record_success record_failure force_open force_close reset
  apply-IsCounted requests = ground arith
  apply-IsCounted (succeeds t) = ground (
    arith,
    length-append_bounded 1000 b.request_history
        (record { success = true; response_time = t; error_message = none; timestamp = now }),
  )
  apply-IsCounted (fails t e) = ground (
    arith,
    length-append_bounded 1000 b.request_history
        (record { success = false; response_time = t; error_message = some e; timestamp = now }),
  )
  apply-IsCounted forces_open = ground arith
  apply-IsCounted forces_close = ground arith
  apply-IsCounted resets = ground arith

run_from-IsCounted : (s : List (ℕ × Event)) (b : CircuitBreaker) → IsCounted b → IsCounted (run s b)
unfolding run
run_from-IsCounted [] b v = v
run_from-IsCounted ((now, e) ∷ s) b v =
    run_from-IsCounted s (apply now e b) (apply-IsCounted now b v e)

init-IsCounted :
    (name : String) (kind : CircuitType) (c : Option CircuitBreakerConfig) (now : ℕ)
    → IsCounted (init name kind c now)
unfolding init
init-IsCounted name kind c now = ground arith

-- Whatever the schedule, no request is counted as a success without being counted, every counted
-- request is a success or a failure, successes are counted in the half-open state only and below their
-- threshold, and the history holds a thousand requests at most.
pub run-IsCounted :
    (name : String) (kind : CircuitType) (c : Option CircuitBreakerConfig) (made : ℕ)
    (s : List (ℕ × Event))
    → IsCounted (run s (init name kind c made))
run-IsCounted name kind c made s =
    run_from-IsCounted s (init name kind c made) (init-IsCounted name kind c made)

-- The breaker after calls that begin at the given times.
pub refusals : {A : Type 0} → List (ℕ × ℕ × Outcome A) → CircuitBreaker → CircuitBreaker
refusals [] b = b
refusals ((start, now, o) ∷ s) b = refusals s (call start now o b).1

-- The start of every call lies before the end of the wait.
abbrev pub AllEarly : {A : Type 0} → ℕ → List (ℕ × ℕ × Outcome A) → Type 0
AllEarly end [] = Unit
AllEarly end ((start, now, o) ∷ s) = (start < end) × AllEarly end s

refused_call :
    {A : Type 0} (start now : ℕ) (o : Outcome A) (b : CircuitBreaker)
    → b.state ≡ opened
    → start < b.state_changed_time + seconds b.current_backoff
    → call start now o b ≡ (
      circuit_is_open,
      record b { metrics = record b.metrics { failed_requests = b.metrics.failed_requests + 1 } },
      [],
    )
unfolding call
refused_call start now o b h e = ground arith

-- While an open breaker waits, each call that it refuses adds one to the failed requests and none to
-- the total, and it stays open.
refusals_inflate :
    {A : Type 0} (s : List (ℕ × ℕ × Outcome A)) (b : CircuitBreaker)
    → b.state ≡ opened
    → AllEarly (b.state_changed_time + seconds b.current_backoff) s
    → ((refusals s b).metrics.failed_requests ≡ b.metrics.failed_requests + length s)
      × ((refusals s b).metrics.total_requests ≡ b.metrics.total_requests)
      × ((refusals s b).state ≡ opened)
unfolding refusals
refusals_inflate [] b h e = (omega arith, refl, h)
refusals_inflate ((start, now, o) ∷ s) b h e =
    let c : CircuitBreaker = record b {
      metrics = record b.metrics { failed_requests = b.metrics.failed_requests + 1 };
    } in
    let r = refusals_inflate s c h e.1 in
    rw (refused_call start now o b h e.0, refusals) (omega (arith, r.0), r.1, r.2)
