-- ===== src/Breaker/Tests.antt =====
-- The circuit breaker on concrete inputs: a breaker that trips after two failures, its runs, and the
-- theorems at inputs that meet their hypotheses.
use claude_library.Prelude.{ℕ, ◌+◌, ◌≤◌, ◌≡◌, refl, some, List, [], ◌∷◌, arith, All}
use claude_library.Prelude.Key.{string_key}
use claude_library.Breaker.State.{
  opened, half_open, CircuitBreakerConfig, default_config, CircuitBreaker, seconds,
}
use claude_library.Breaker.Transitions.{init}
use claude_library.Breaker.Calls.{admit, on_failure}
use claude_library.Breaker.Schedule.{Event, admits, fails, run}
use claude_library.Breaker.Invariant.{
  succeeded, failed, recorded, admitted_tests, IsValid, run-IsValid,
}
use claude_library.Breaker.Backoff.{trips_since, IsBackedOff, run-IsBackedOff}
use claude_library.Breaker.Recovery.{IsRecovered, successful_calls, recovers}
use claude_library.Breaker.Window.{failures_within_window}
use claude_library.Breaker.Manager.{CircuitBreakerManager}

abbrev quick : CircuitBreakerConfig
quick = record (default_config "quick") {
  failure_threshold = 2;
  success_threshold = 2;
  half_open_max_calls = 2;
  timeout_duration = 1;
}

abbrev fresh : CircuitBreaker
unfolding init
fresh = init "api" (some quick) 0

-- Open since a failure at 2 seconds, with a wait of 1 second.
abbrev tripped : CircuitBreaker
tripped = record fresh {
  state = opened;
  state_changed_time = 2000000;
  last_failure_time = some 2000000;
  failure_count = 2;
  backoff_count = 1;
}

abbrev testing : CircuitBreaker
testing = record tripped { state = half_open }

abbrev busy : List (ℕ × Event)
busy =
    (10, admits)
    ∷ (20, fails 10)
    ∷ (30, fails 5)
    ∷ (40, admits)
    ∷ (1500000, admits)
    ∷ (1500010, fails 10)
    ∷ []

-- Two failures trip the breaker, a failed test call trips it again, and the wait has doubled.
run-busy :
    let b = run busy fresh in (b.state ≡ opened) × (b.backoff_count ≡ 2) × (b.current_backoff ≡ 2)
unfolding run on_failure admit init
run-busy = (refl, refl, refl)

abbrev fleet : CircuitBreakerManager
fleet = ("api", tripped) ∷ ("db", fresh) ∷ []

run-IsValid_example :
    let b = init "api" (some quick) 0 in
    IsValid
      (recorded succeeded 0 busy)
      (recorded failed 0 busy)
      (admitted_tests 0 busy b)
      (run busy b)
run-IsValid_example = run-IsValid "api" (some quick) 0 busy

run-IsBackedOff_example :
    let b = init "api" (some quick) 0 in IsBackedOff (trips_since 0 busy b) (run busy b)
unfolding init
run-IsBackedOff_example = run-IsBackedOff "api" (some quick) 0 busy refl

recovers_example :
    IsRecovered 1 (successful_calls ((3000000, 3000100) ∷ (3000200, 3000300) ∷ []) tripped)
unfolding fresh
recovers_example =
    recovers 3000000 3000100 2000000 ((3000200, 3000300) ∷ []) tripped refl refl (omega arith)
      (omega arith) (omega arith)

failures_within_window_example :
    let b = run busy (init "api" (some quick) 0) in
    All
      (λ u. 70000000 ≤ u + seconds b.config.failure_window_seconds)
      (on_failure 70000000 9 b).0.recent_failures
failures_within_window_example =
    failures_within_window "api" (some quick) 0 busy 70000000 9 (omega arith)
