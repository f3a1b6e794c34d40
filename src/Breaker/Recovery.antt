-- ===== src/Breaker/Recovery.antt =====
-- How an open breaker recovers: the wait, the test calls, the closing.
use claude_library.Prelude.{ℕ, ◌+◌, ◌≤◌, ◌<◌, ◌≡◌, some, List, [], ◌∷◌, arith, length}
use claude_library.Breaker.State.{closed, opened, half_open, CircuitBreaker, seconds}
use claude_library.Breaker.Transitions.{transition_to_half_open}
use claude_library.Breaker.Calls.{returned, call}

-- The breaker after calls whose functions return, each given by its start and its end.
pub successful_calls : List (ℕ × ℕ) → CircuitBreaker → CircuitBreaker
successful_calls [] b = b
successful_calls ((start, now) ∷ s) b =
    successful_calls s (call {A = Unit} {E = Unit} start now (returned tt) b).1

abbrev after_success : ℕ → ℕ → CircuitBreaker → CircuitBreaker
after_success start now b = (call {A = Unit} {E = Unit} start now (returned tt) b).1

module _ (start now : ℕ) (b : CircuitBreaker)
    (free : b.half_open_calls < b.config.half_open_max_calls) where
  test_passes :
      b.state ≡ half_open
      → b.success_count + 1 < b.config.success_threshold
      → let d = after_success start now b in
        (d.state ≡ half_open)
        × (d.success_count ≡ b.success_count + 1)
        × (d.half_open_calls ≡ b.half_open_calls + 1)
        × (d.config ≡ b.config)
  unfolding call
  test_passes h e = ground arith

  last_test :
      b.state ≡ half_open
      → b.success_count + 1 ≡ b.config.success_threshold
      → let d = after_success start now b in
        (d.state ≡ closed)
        × (d.failure_count ≡ 0)
        × (d.backoff_count ≡ 0)
        × (d.current_backoff ≡ b.config.timeout_duration)
  unfolding call
  last_test h e = ground arith

-- What a recovery leaves: a closed circuit that has forgotten its failures and its backoff.
pub record IsRecovered (timeout : ℕ) (b : CircuitBreaker) : Type 0 where
  pub state : b.state ≡ closed
  pub failures : b.failure_count ≡ 0
  pub backoffs : b.backoff_count ≡ 0
  pub wait : b.current_backoff ≡ timeout

recovers_half_open :
    (s : List (ℕ × ℕ)) (b : CircuitBreaker)
    → b.state ≡ half_open
    → 0 < length s
    → b.success_count + length s ≡ b.config.success_threshold
    → b.half_open_calls + length s ≤ b.config.half_open_max_calls
    → IsRecovered b.config.timeout_duration (successful_calls s b)
unfolding successful_calls
recovers_half_open [] b h p e l = absurd (omega arith)
recovers_half_open ((start, now) ∷ []) b h p e l = ground (arith, last_test start now b)
recovers_half_open ((start, now) ∷ x ∷ s) b h p e l =
    ground (arith, test_passes start now b, recovers_half_open (x ∷ s) (after_success start now b))

-- A breaker whose wait is over goes to the half-open state with the first call.
wait_over :
    (start now t : ℕ) (b : CircuitBreaker)
    → b.state ≡ opened
    → b.last_failure_time ≡ some t
    → t + seconds b.current_backoff ≤ start
    → after_success start now b ≡ after_success start now (transition_to_half_open start b)
unfolding call
wait_over start now t b o l w = ground arith

half_opened :
    (now : ℕ) (b : CircuitBreaker)
    → b.state ≡ opened
    → let d = transition_to_half_open now b in
      (d.state ≡ half_open)
      × (d.success_count ≡ 0)
      × (d.half_open_calls ≡ 0)
      × (d.config ≡ b.config)
unfolding transition_to_half_open
half_opened now b o = ground arith

-- An open breaker recovers: once its wait is over, as many successful calls in a row as the success
-- threshold close it, if the half-open state allows that many test calls. Its wait, its count of
-- trips and its count of failures then start again.
pub recovers :
    (start now t : ℕ) (s : List (ℕ × ℕ)) (b : CircuitBreaker)
    → b.state ≡ opened
    → b.last_failure_time ≡ some t
    → t + seconds b.current_backoff ≤ start
    → length s + 1 ≡ b.config.success_threshold
    → b.config.success_threshold ≤ b.config.half_open_max_calls
    → IsRecovered b.config.timeout_duration (successful_calls ((start, now) ∷ s) b)
unfolding successful_calls
recovers start now t s b o l w e m = ground (
  arith,
  wait_over start now t b,
  half_opened start b,
  recovers_half_open ((start, now) ∷ s) (transition_to_half_open start b),
)
