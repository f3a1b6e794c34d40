-- ===== src/MemoryBreaker/Calls.antt =====
-- `CircuitBreaker` of components/memory/memory_mcp_client/circuit_breaker.py. Clock readings are
-- microseconds, and `timeout_duration` is in seconds. Each section under the lock is one step.
use claude_library.Prelude.{
  ℕ, ◌+◌, ◌-◌, ◌*◌, String, ◌≡◌, ◌↔◌, Bool, true, false, ◌&&◌, Option, none, some, List, [], ◌∷◌,
  leb, if◌then◌else◌, arith,
}
use claude_library.Prelude.Key.{Key, ◌=?◌}

pub data CircuitBreakerState : Type 0 where
  closed opened half_open : CircuitBreakerState

abbrev same_state : CircuitBreakerState → CircuitBreakerState → Bool
same_state closed closed = true
same_state opened opened = true
same_state half_open half_open = true
same_state _ _ = false

pub same_state_iff : (a b : CircuitBreakerState) → (same_state a b ≡ true) ↔ (a ≡ b)
same_state_iff a b = ground arith

instance abbrev pub state_key : Key CircuitBreakerState
state_key = record { beq = same_state; beq_iff = same_state_iff }

pub record CircuitBreakerConfig : Type 0 where
  pub failure_threshold : ℕ
  pub timeout_duration : ℕ
  pub half_open_max_calls : ℕ
  pub name : String

abbrev pub default_config : CircuitBreakerConfig
default_config = record {
  failure_threshold = 5;
  timeout_duration = 30;
  half_open_max_calls = 3;
  name = "default";
}

pub record CircuitBreaker : Type 0 where
  pub config : CircuitBreakerConfig
  pub state : CircuitBreakerState
  pub failure_count : ℕ
  pub last_failure_time : Option ℕ
  pub half_open_calls : ℕ

unfoldable pub init : Option CircuitBreakerConfig → CircuitBreaker
init given = record {
  config = elim given [ none ↦ default_config | some c ↦ c ];
  state = closed;
  failure_count = 0;
  last_failure_time = none;
  half_open_calls = 0;
}

unfoldable pub check_state_transition : ℕ → CircuitBreaker → CircuitBreaker
check_state_transition now b = elim b.last_failure_time [
  | none ↦ b
  | some t ↦
      if b.state =? opened && leb (t + b.config.timeout_duration * 1000000) now
      then record b { state = half_open; half_open_calls = 0 }
      else b
]

-- `max(0, timeout_duration - elapsed)`, in microseconds.
unfoldable pub calculate_retry_after : ℕ → CircuitBreaker → ℕ
calculate_retry_after now b = elim b.last_failure_time [
  | none ↦ b.config.timeout_duration * 1000000
  | some t ↦ t + b.config.timeout_duration * 1000000 - now
]

-- How the head of `call` ends: the function is called, or `CircuitBreakerError` is raised.
pub data Admission : Type 0 where
  admitted : Admission
  refused_open : ℕ → Admission
  refused_limit : Admission

unfoldable pub admit : ℕ → CircuitBreaker → Admission × CircuitBreaker
unfolding check_state_transition calculate_retry_after
admit now b =
    let c = check_state_transition now b in
    if c.state =? opened
    then (refused_open (calculate_retry_after now c), c)
    else if c.state =? half_open && leb c.config.half_open_max_calls c.half_open_calls
    then (refused_limit, c)
    else if c.state =? half_open
    then (admitted, record c { half_open_calls = c.half_open_calls + 1 })
    else (admitted, c)

unfoldable pub on_success : CircuitBreaker → CircuitBreaker
on_success b =
    if b.state =? half_open
    then record b { state = closed; failure_count = 0; half_open_calls = 0 }
    else if b.state =? closed
    then record b { failure_count = 0 }
    else b

unfoldable pub on_failure : ℕ → CircuitBreaker → CircuitBreaker
on_failure now b =
    let c = record b { failure_count = b.failure_count + 1; last_failure_time = some now } in
    if c.state =? half_open
    then record c { state = opened; half_open_calls = 0 }
    else if c.state =? closed && leb c.config.failure_threshold c.failure_count
    then record c { state = opened }
    else c

unfoldable pub reset : CircuitBreaker → CircuitBreaker
reset b = record b {
  state = closed;
  failure_count = 0;
  last_failure_time = none;
  half_open_calls = 0;
}

-- What the protected function does, and how `call` ends.
pub data Outcome (A E : Type 0) : Type 0 where
  returned : A → Outcome A E
  raised : E → Outcome A E
  cancelled : Outcome A E

pub data CallResult (A E : Type 0) : Type 0 where
  refused : Admission → CallResult A E
  passed_on : Outcome A E → CallResult A E

unfoldable pub finish : {A E : Type 0} → ℕ → Outcome A E → CircuitBreaker → CircuitBreaker
unfolding on_success on_failure
finish now (returned a) b = on_success b
finish now (raised e) b = on_failure now b
finish now cancelled b = b

-- A call that begins at `start` and whose function ends at `now`, with no other call in between.
unfoldable pub call :
    {A E : Type 0} → ℕ → ℕ → Outcome A E → CircuitBreaker → CallResult A E × CircuitBreaker
unfolding admit finish
call start now outcome b =
    let (a, c) = admit start b in
    elim a [
      | admitted ↦ (passed_on outcome, finish now outcome c)
      | refused_open t ↦ (refused (refused_open t), c)
      | refused_limit ↦ (refused refused_limit, c)
    ]

-- The sections of the breaker under its lock, which the calls of many tasks interleave in any way.
pub data Event : Type 0 where
  admits succeeds fails resets : Event

unfoldable pub apply : ℕ → Event → CircuitBreaker → Option Admission × CircuitBreaker
unfolding admit on_success on_failure reset
apply now admits b = let (a, c) = admit now b in (some a, c)
apply now succeeds b = (none, on_success b)
apply now fails b = (none, on_failure now b)
apply now resets b = (none, reset b)

-- The answers to a schedule of events, and the breaker after it.
unfoldable pub run : List (ℕ × Event) → CircuitBreaker → List (Option Admission) × CircuitBreaker
unfolding apply
run [] b = ([], b)
run ((now, e) ∷ s) b = let (a, c) = apply now e b in let (rest, d) = run s c in (a ∷ rest, d)
