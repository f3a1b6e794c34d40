-- ===== src/MemoryBreaker/Tests.antt =====
-- The breaker of the memory client at concrete times.
use claude_library.Prelude.{ℕ, ◌≡◌, refl, String, some, none, List, [], ◌∷◌, arith}
use claude_library.Breaker.Transitions.{init as guard_init}
use claude_library.MemoryBreaker.Calls.{
  closed, opened, CircuitBreakerConfig, default_config, CircuitBreaker, init, Event, admits,
  succeeds, fails, run, returned, raised, passed_on, refused, refused_open, call, admitted,
}
use claude_library.MemoryBreaker.Simulation.{guard_config, guard_run, state_of, same_answers}
use claude_library.MemoryBreaker.Recovery.{test_call_decides}

abbrev config : CircuitBreakerConfig
config = record default_config { failure_threshold = 2 }

-- Two failures, a call that is refused, a test call that fails, one that succeeds.
abbrev events : List (ℕ × Event)
events =
    (0, admits)
    ∷ (10, fails)
    ∷ (20, admits)
    ∷ (30, fails)
    ∷ (1000030, admits)
    ∷ (30000030, admits)
    ∷ (30000040, fails)
    ∷ (60000040, admits)
    ∷ (60000050, succeeds)
    ∷ []

answers :
    (run events (init (some config))).0
    ≡ some admitted
      ∷ none
      ∷ some admitted
      ∷ none
      ∷ some (refused_open 29000000)
      ∷ some admitted
      ∷ none
      ∷ some admitted
      ∷ none
      ∷ []
unfolding run init
answers = refl

same_answers_example :
    ((run events (init (some config))).0
      ≡ (guard_run 5 events (guard_init "default" (some (guard_config config)) 0)).0)
    × ((run events (init (some config))).1.state
        ≡ state_of
            (guard_run 5 events (guard_init "default" (some (guard_config config)) 0)).1.state)
same_answers_example = same_answers config 0 5 events

abbrev tripped : CircuitBreaker
tripped = record {
  config = default_config;
  state = opened;
  failure_count = 5;
  last_failure_time = some 7;
  half_open_calls = 0;
}

test_call_decides_example :
    (((call {A = ℕ} {E = String} 30000007 30000009 (returned 3) tripped).0 ≡ passed_on (returned 3))
      × ((call {A = ℕ} {E = String} 30000007 30000009 (returned 3) tripped).1.state ≡ closed)
      × ((call {A = ℕ} {E = String} 30000007 30000009 (returned 3) tripped).1.failure_count ≡ 0))
    × ((call {A = ℕ} {E = String} 30000007 30000009 (raised "down") tripped).0
        ≡ passed_on (raised "down"))
    × (let c = (call {A = ℕ} {E = String} 30000007 30000009 (raised "down") tripped).1 in
        (c.state ≡ opened)
        × (call {A = ℕ} {E = String} 40000000 40000001 (returned 4) c
            ≡ (refused (refused_open 20000009), c)))
test_call_decides_example =
    test_call_decides tripped 7 30000007 30000009 40000000 40000001 3 "down" (returned 4) refl refl
      (omega arith) (omega arith) (omega arith)
