-- ===== src/Breaker/Backoff.antt =====
-- The exponential backoff of a breaker, whatever the schedule.
use claude_library.Prelude.{
  ℕ, zero, suc, ◌*◌, ◌^◌, min, String, ◌≡◌, true, Option, List, [], ◌∷◌, arith, Bool, false, not,
  ◌&&◌, if◌then◌else◌,
}
use claude_library.Prelude.Key.{◌=?◌}
use claude_library.Breaker.State.{closed, opened, state_key, CircuitBreakerConfig, CircuitBreaker}
use claude_library.Breaker.Transitions.{init}
use claude_library.Breaker.Calls.{admit, on_success, on_failure, force_open, force_close, reset}
use claude_library.Breaker.Schedule.{
  Event, admits, succeeds, fails, forces_open, forces_close, resets, apply, run,
}

-- The wait after `trips` trips since the circuit was last closed.
unfoldable pub backoff_after : CircuitBreakerConfig → ℕ → ℕ
backoff_after c zero = c.timeout_duration
backoff_after c (suc k) = min (c.timeout_duration * c.backoff_multiplier ^ k) c.max_backoff_seconds

-- The circuit closes, or the breaker is reset.
unfoldable pub ends_trips : ℕ → Event → CircuitBreaker → Bool
ends_trips now resets b = true
ends_trips now e b = not (b.state =? closed) && (apply now e b).state =? closed

-- A failure opens the circuit.
unfoldable pub is_trip : ℕ → Event → CircuitBreaker → Bool
is_trip now (fails t) b = not (b.state =? opened) && (apply now (fails t) b).state =? opened
is_trip now _ b = false

abbrev pub trips_after : ℕ → Event → CircuitBreaker → ℕ → ℕ
trips_after now e b k = if ends_trips now e b then 0 else if is_trip now e b then suc k else k

-- The trips since the circuit last closed or was reset, of which there were `k` before the schedule.
unfoldable pub trips_since : ℕ → List (ℕ × Event) → CircuitBreaker → ℕ
trips_since k [] b = k
trips_since k ((now, e) ∷ s) b = trips_since (trips_after now e b k) s (apply now e b)

abbrev pub IsBackedOff : ℕ → CircuitBreaker → Type 0
IsBackedOff k b = (b.backoff_count ≡ k) × (b.current_backoff ≡ backoff_after b.config k)

module _ (now : ℕ) (b : CircuitBreaker) where
  pub config-apply : (e : Event) → (apply now e b).config ≡ b.config
  unfolding apply admit on_success on_failure force_open force_close reset
  config-apply admits = ground arith
  config-apply (succeeds t) = ground arith
  config-apply (fails t) = ground arith
  config-apply forces_open = ground arith
  config-apply _ = ground arith

  -- One trip moves the wait one step along the schedule of waits; nothing else lengthens it.
  apply-IsBackedOff :
      (k : ℕ) (e : Event)
      → b.config.exponential_backoff ≡ true
      → IsBackedOff k b
      → IsBackedOff (trips_after now e b k) (apply now e b)
  unfolding ends_trips is_trip apply admit on_success on_failure force_open force_close reset
      backoff_after
  apply-IsBackedOff k admits x h = ground arith
  apply-IsBackedOff k (succeeds t) x h = ground arith
  apply-IsBackedOff k (fails t) x h = ground arith
  apply-IsBackedOff k forces_open x h = ground arith
  apply-IsBackedOff k forces_close x h = ground arith
  apply-IsBackedOff k resets x h = ground arith

run_from-IsBackedOff :
    (k : ℕ) (s : List (ℕ × Event)) (b : CircuitBreaker)
    → b.config.exponential_backoff ≡ true
    → IsBackedOff k b
    → IsBackedOff (trips_since k s b) (run s b)
unfolding run trips_since
run_from-IsBackedOff k [] b x h = h
run_from-IsBackedOff k ((now, e) ∷ s) b x h =
    run_from-IsBackedOff (trips_after now e b k) s (apply now e b) (cc (config-apply now b e))
      (apply-IsBackedOff now b k e x h)

init-IsBackedOff :
    (name : String) (c : Option CircuitBreakerConfig) (now : ℕ) → IsBackedOff 0 (init name c now)
unfolding init backoff_after
init-IsBackedOff name c now = ground arith

-- With exponential backoff on, whatever the schedule, a breaker has counted the trips (failures that
-- open the circuit) since it was created, last closed or last reset, and its wait is the timeout if
-- there was none, and else the timeout times the multiplier to the number of earlier trips since
-- then, up to the maximum.
pub run-IsBackedOff :
    (name : String) (c : Option CircuitBreakerConfig) (now : ℕ) (s : List (ℕ × Event))
    → (init name c now).config.exponential_backoff ≡ true
    → let b = init name c now in IsBackedOff (trips_since 0 s b) (run s b)
run-IsBackedOff name c now s x =
    run_from-IsBackedOff 0 s (init name c now) x (init-IsBackedOff name c now)
