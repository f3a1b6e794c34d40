-- ===== src/TradingBreaker/Tests.antt =====
-- The trading breaker on concrete inputs, and its theorems at inputs that meet their hypotheses.
use claude_library.Prelude.{ℕ, ◌≡◌, refl, some, List, [], ◌∷◌, append_bounded}
use claude_library.TradingBreaker.State.{
  opened, half_open, connection_failure, CircuitBreakerConfig, default_config, CircuitBreaker,
}
use claude_library.TradingBreaker.Transitions.{init}
use claude_library.TradingBreaker.Calls.{
  Event, requests, fails, run, apply, request, record_failure,
}
use claude_library.TradingBreaker.Counting.{IsCounted, run-IsCounted}
use claude_library.TradingBreaker.Manager.{CircuitBreakerManager}

abbrev quick : CircuitBreakerConfig
quick = record default_config {
  failure_threshold = 2;
  success_threshold = 1;
  open_timeout_seconds = 1;
}

-- A new breaker, and the same breaker at later stages.
abbrev fresh : CircuitBreaker
unfolding init
fresh = init "broker" connection_failure (some quick) 0

abbrev tripped : CircuitBreaker
unfolding init
tripped = record fresh {
  state = opened;
  state_changed_time = 2000000;
  recent_failures = 1000000 ∷ 2000000 ∷ [];
}

abbrev probing : CircuitBreaker
unfolding init
probing = record tripped { state = half_open; state_changed_time = 3000000 }

-- Two failures trip the breaker. A test call fails, and a second wait is as long as the first.
abbrev outage : List (ℕ × Event)
outage =
    (10, requests)
    ∷ (20, fails 10 "timeout")
    ∷ (30, requests)
    ∷ (40, fails 10 "timeout")
    ∷ (1500000, requests)
    ∷ (1500010, fails 10 "timeout")
    ∷ []

run-outage :
    let b = run outage fresh in
    (b.state ≡ opened) × (b.current_backoff ≡ 1) × (b.metrics.circuit_trips ≡ 1)
unfolding run apply request record_failure init append_bounded
run-outage = (refl, refl, refl)

run-IsCounted_example : IsCounted (run outage (init "broker" connection_failure (some quick) 0))
run-IsCounted_example = run-IsCounted "broker" connection_failure (some quick) 0 outage

abbrev fleet : CircuitBreakerManager
fleet = ("broker", tripped) ∷ ("feed", fresh) ∷ []
