-- ===== src/Breaker/Invariant.antt =====
-- What holds of a breaker whatever the schedule of its calls.
use claude_library.Prelude.{
  ℕ, String, ◌+◌, ◌≤◌, ◌<◌, max, ◌≡◌, Option, List, [], ◌∷◌, arith, length, length-append_bounded,
  Bool, true, false, ◌&&◌, if◌then◌else◌,
}
use claude_library.Prelude.Key.{◌=?◌}
use claude_library.Breaker.State.{
  closed, half_open, state_key, CircuitBreakerConfig, CircuitBreaker,
}
use claude_library.Breaker.Transitions.{init}
use claude_library.Breaker.Calls.{
  Admission, admitted, admit, on_success, on_failure, force_open, force_close, reset,
}
use claude_library.Breaker.Schedule.{
  Event, admits, succeeds, fails, forces_open, forces_close, resets, apply, run,
}

-- The successes and the failures that were recorded since the last reset.
unfoldable pub succeeded : Event → ℕ → ℕ
succeeded (succeeds t) n = n + 1
succeeded resets n = 0
succeeded _ n = n

unfoldable pub failed : Event → ℕ → ℕ
failed (fails t) n = n + 1
failed resets n = 0
failed _ n = n

unfoldable pub recorded : (Event → ℕ → ℕ) → ℕ → List (ℕ × Event) → ℕ
recorded f n [] = n
recorded f n ((now, e) ∷ s) = recorded f (f e n) s

abbrev pub is_half_open : CircuitBreaker → Bool
is_half_open b = b.state =? half_open

abbrev pub is_admitted : Admission → Bool
is_admitted admitted = true
is_admitted _ = false

-- The calls that were admitted in the half-open state since it was last entered, or since a reset.
unfoldable pub tested : ℕ → Event → CircuitBreaker → ℕ → ℕ
tested now admits b k =
    (if is_half_open b then k else if is_half_open (admit now b).1 then 0 else k)
    + (if is_admitted (admit now b).0 && is_half_open (admit now b).1 then 1 else 0)
tested now resets b k = 0
tested now _ b k = k

unfoldable pub admitted_tests : ℕ → List (ℕ × Event) → CircuitBreaker → ℕ
admitted_tests k [] b = k
admitted_tests k ((now, e) ∷ s) b = admitted_tests (tested now e b k) s (apply now e b)

-- A breaker after `n` successes, `m` failures and `k` test calls.
pub record IsValid (n m k : ℕ) (b : CircuitBreaker) : Type 0 where
  pub successful : b.metrics.successful_requests ≡ n
  pub failing : b.metrics.failed_requests ≡ m
  pub total : b.metrics.total_requests ≡ n + m
  pub tests : b.half_open_calls ≡ k
  pub limit : k ≤ b.config.half_open_max_calls
  -- Enough successes have closed the circuit already.
  pub successes : b.success_count < max 1 b.config.success_threshold
  -- Enough failures have opened the circuit already.
  pub failures : b.state ≡ closed → b.failure_count < max 1 b.config.failure_threshold
  pub backoff : b.current_backoff ≤ max b.config.timeout_duration b.config.max_backoff_seconds
  pub window : length b.request_times ≤ 100

module _ (now n m k : ℕ) (b : CircuitBreaker) (v : IsValid n m k b) where
  admit-IsValid : IsValid n m (tested now admits b k) (admit now b).1
  unfolding admit tested
  admit-IsValid = ground arith

  on_success-IsValid : (t : ℕ) → IsValid (n + 1) m k (on_success now t b).0
  unfolding on_success
  on_success-IsValid t = ground (arith, length-append_bounded 100 b.request_times t)

  on_failure-IsValid : (t : ℕ) → IsValid n (m + 1) k (on_failure now t b).0
  unfolding on_failure
  on_failure-IsValid t = ground (arith, length-append_bounded 100 b.request_times t)

  force_open-IsValid : IsValid n m k (force_open now b).0
  unfolding force_open
  force_open-IsValid = ground arith

  force_close-IsValid : IsValid n m k (force_close now b).0
  unfolding force_close
  force_close-IsValid = ground arith

reset-IsValid : (now : ℕ) (b : CircuitBreaker) → IsValid 0 0 0 (reset now b)
unfolding reset
reset-IsValid now b = ground arith

init-IsValid :
    (name : String) (c : Option CircuitBreakerConfig) (now : ℕ) → IsValid 0 0 0 (init name c now)
unfolding init
init-IsValid name c now = ground arith

apply-IsValid :
    (now n m k : ℕ) (e : Event) (b : CircuitBreaker)
    → IsValid n m k b
    → IsValid (succeeded e n) (failed e m) (tested now e b k) (apply now e b)
unfolding apply succeeded failed tested
apply-IsValid now n m k admits b v = admit-IsValid now n m k b v
apply-IsValid now n m k (succeeds t) b v = on_success-IsValid now n m k b v t
apply-IsValid now n m k (fails t) b v = on_failure-IsValid now n m k b v t
apply-IsValid now n m k forces_open b v = force_open-IsValid now n m k b v
apply-IsValid now n m k forces_close b v = force_close-IsValid now n m k b v
apply-IsValid now n m k resets b v = reset-IsValid now b

run_from-IsValid :
    (n m k : ℕ) (s : List (ℕ × Event)) (b : CircuitBreaker)
    → IsValid n m k b
    → IsValid (recorded succeeded n s) (recorded failed m s) (admitted_tests k s b) (run s b)
unfolding run recorded admitted_tests
run_from-IsValid n m k [] b v = v
run_from-IsValid n m k ((now, e) ∷ s) b v =
    run_from-IsValid (succeeded e n) (failed e m) (tested now e b k) s (apply now e b)
      (apply-IsValid now n m k e b v)

-- From a new breaker, whatever calls are admitted, succeed, fail or are forced, at whatever times and
-- in whatever order: the successes, the failures and the requests that it counts are those recorded
-- since the last reset, each once; the test calls that it counts are those it has admitted since it was
-- last half open or reset, no more of them than the limit; no counter stands at its threshold without
-- having acted; and the backoff and the history are bounded.
pub run-IsValid :
    (name : String) (c : Option CircuitBreakerConfig) (now : ℕ) (s : List (ℕ × Event))
    → let b = init name c now in
      IsValid (recorded succeeded 0 s) (recorded failed 0 s) (admitted_tests 0 s b) (run s b)
run-IsValid name c now s = run_from-IsValid 0 0 0 s (init name c now) (init-IsValid name c now)
