-- ===== src/Breaker/Schedule.antt =====
-- The lock sections of `CircuitBreaker` as events. A schedule is any sequence of them, with the time
-- of each: the calls of many tasks, interleaved in any way.
use claude_library.Prelude.{ℕ, List, [], ◌∷◌}
use claude_library.Breaker.State.{CircuitBreaker}
use claude_library.Breaker.Calls.{admit, on_success, on_failure, force_open, force_close, reset}

pub data Event : Type 0 where
  admits : Event
  succeeds : ℕ → Event
  fails : ℕ → Event
  forces_open forces_close resets : Event

unfoldable pub apply : ℕ → Event → CircuitBreaker → CircuitBreaker
apply now admits b = (admit now b).1
apply now (succeeds t) b = (on_success now t b).0
apply now (fails t) b = (on_failure now t b).0
apply now forces_open b = (force_open now b).0
apply now forces_close b = (force_close now b).0
apply now resets b = reset now b

unfoldable pub run : List (ℕ × Event) → CircuitBreaker → CircuitBreaker
unfolding apply
run [] b = b
run ((now, e) ∷ s) b = run s (apply now e b)
