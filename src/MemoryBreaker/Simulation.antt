-- ===== src/MemoryBreaker/Simulation.antt =====
-- The breaker of the memory client against the one of the utilities, Breaker.antt: it answers every
-- schedule of calls as that one does under a certain config.
use claude_library.Prelude.{
  ℕ, ◌≤◌, ◌+◌, ◌*◌, leb, ◌≡◌, refl, ap, ◌∙◌, length-append, length-drop_while, Option, none, some,
  List, [], ◌∷◌, ◌++◌, arith, false, length, ltb,
}
use claude_library.Breaker.State.{
  CircuitState, closed as b_closed, opened as b_opened, half_open as b_half_open, seconds,
  CircuitBreaker as Guard, CircuitBreakerConfig as GuardConfig,
}
use claude_library.Breaker.Transitions.{init as guard_init}
use claude_library.Breaker.Calls.{
  Admission as GuardAdmission, admitted as b_admitted, refused_open as b_refused_open,
  refused_limit as b_refused_limit, admit as guard_admit, on_success as guard_on_success,
  on_failure as guard_on_failure, reset as guard_reset, should_trip, record_failure,
}
use claude_library.MemoryBreaker.Calls.{
  CircuitBreakerState, closed, opened, half_open, CircuitBreakerConfig, CircuitBreaker, init,
  Admission, admitted, refused_open, refused_limit, admit, on_success, on_failure, reset, Event,
  admits, succeeds, fails, resets, apply, run,
}

-- One success closes the circuit, the wait does not grow, and no failure rate reaches the threshold.
abbrev pub guard_config : CircuitBreakerConfig → GuardConfig
guard_config c = record {
  failure_threshold = c.failure_threshold;
  rate_num = 2;
  rate_den = 1;
  success_threshold = 1;
  failure_window_seconds = 60;
  timeout_duration = c.timeout_duration;
  half_open_max_calls = c.half_open_max_calls;
  exponential_backoff = false;
  backoff_multiplier = 2;
  max_backoff_seconds = 300;
  min_requests_for_rate = 10;
  name = c.name;
}

abbrev pub state_of : CircuitState → CircuitBreakerState
state_of b_closed = closed
state_of b_opened = opened
state_of b_half_open = half_open

abbrev pub answer_of : GuardAdmission → Admission
answer_of b_admitted = admitted
answer_of (b_refused_open t) = refused_open t
answer_of b_refused_limit = refused_limit

-- The same events at the other breaker, whose record of response times is given `t` each time.
unfoldable pub guard_apply : ℕ → ℕ → Event → Guard → Option Admission × Guard
unfolding guard_admit guard_on_success guard_on_failure guard_reset
guard_apply t now admits g = let (a, h) = guard_admit now g in (some (answer_of a), h)
guard_apply t now succeeds g = (none, (guard_on_success now t g).0)
guard_apply t now fails g = (none, (guard_on_failure now t g).0)
guard_apply t now resets g = (none, guard_reset now g)

unfoldable pub guard_run : ℕ → List (ℕ × Event) → Guard → List (Option Admission) × Guard
unfolding guard_apply
guard_run t [] g = ([], g)
guard_run t ((now, e) ∷ s) g =
    let (a, h) = guard_apply t now e g in let (rest, i) = guard_run t s h in (a ∷ rest, i)

-- The counters of failures are compared in the closed state and those of test calls in the half-open
-- state only: the two breakers clear them at different moments.
pub record Simulates (b : CircuitBreaker) (g : Guard) : Type 0 where
  pub config : g.config ≡ guard_config b.config
  pub state : b.state ≡ state_of g.state
  pub failures : g.state ≡ b_closed → b.failure_count ≡ g.failure_count
  pub last : b.last_failure_time ≡ g.last_failure_time
  pub tests : g.state ≡ b_half_open → b.half_open_calls ≡ g.half_open_calls
  pub backoff : g.current_backoff ≡ b.config.timeout_duration
  pub window : length g.recent_failures ≤ g.metrics.total_requests

admit-Simulates :
    (now : ℕ) (b : CircuitBreaker) (g : Guard)
    → Simulates b g
    → ((admit now b).0 ≡ answer_of (guard_admit now g).0)
      × Simulates (admit now b).1 (guard_admit now g).1
unfolding admit guard_admit
admit-Simulates now b g v =
    let c = v.config in
    let t : g.config.timeout_duration ≡ b.config.timeout_duration =
      ap (λ k. k.timeout_duration) c in
    let m : g.config.half_open_max_calls ≡ b.config.half_open_max_calls =
      ap (λ k. k.half_open_max_calls) c in
    ground (arith, v.state, v.failures, v.last, v.tests, v.backoff, v.window, t, m, c)

on_success-Simulates :
    (now t : ℕ) (b : CircuitBreaker) (g : Guard)
    → Simulates b g
    → Simulates (on_success b) (guard_on_success now t g).0
unfolding on_success guard_on_success
on_success-Simulates now t b g v =
    let c = v.config in
    let k : g.config.success_threshold ≡ 1 = ap (λ k. k.success_threshold) c in
    let t : g.config.timeout_duration ≡ b.config.timeout_duration =
      ap (λ k. k.timeout_duration) c in
    let d =
      length-drop_while (λ x. ltb (x + seconds g.config.failure_window_seconds) now)
        g.recent_failures in
    ground (arith, v.state, v.failures, v.last, v.tests, v.backoff, v.window, t, k, c, d)

-- A failure rate is at most 1, and the threshold is 2: only the count of failures trips.
guard_trips :
    (c : CircuitBreakerConfig) (g : Guard)
    → g.config ≡ guard_config c
    → length g.recent_failures ≤ g.metrics.total_requests
    → g.state ≡ b_closed
    → should_trip g ≡ leb c.failure_threshold g.failure_count
unfolding should_trip
guard_trips c g h w s =
    let num : g.config.rate_num ≡ 2 = ap (λ k. k.rate_num) h in
    let den : g.config.rate_den ≡ 1 = ap (λ k. k.rate_den) h in
    let t : g.config.failure_threshold ≡ c.failure_threshold = ap (λ k. k.failure_threshold) h in
    let n : g.config.rate_num * g.metrics.total_requests ≡ 2 * g.metrics.total_requests =
      ap (λ k. k * g.metrics.total_requests) num in
    let d : length g.recent_failures * g.config.rate_den ≡ length g.recent_failures =
      ap (λ k. length g.recent_failures * k) den ∙ omega arith in
    ground (arith, s, w, n, d, t)

on_failure-Simulates :
    (now t : ℕ) (b : CircuitBreaker) (g : Guard)
    → Simulates b g
    → Simulates (on_failure now b) (guard_on_failure now t g).0
unfolding on_failure guard_on_failure record_failure
on_failure-Simulates now t b g v =
    let c = v.config in
    let h : g.config.timeout_duration ≡ b.config.timeout_duration =
      ap (λ k. k.timeout_duration) c in
    let x : g.config.exponential_backoff ≡ false = ap (λ k. k.exponential_backoff) c in
    let d =
      length-drop_while (λ x. ltb (x + seconds g.config.failure_window_seconds) now)
        (g.recent_failures ++ now ∷ []) in
    let e = length-append g.recent_failures (now ∷ []) in
    ground (
      arith,
      v.state,
      v.failures,
      v.last,
      v.tests,
      v.backoff,
      v.window,
      h,
      x,
      c,
      d,
      e,
      guard_trips b.config (record_failure now t g).1,
    )

reset-Simulates :
    (now : ℕ) (b : CircuitBreaker) (g : Guard)
    → Simulates b g
    → Simulates (reset b) (guard_reset now g)
unfolding reset guard_reset
reset-Simulates now b g v =
    let t : g.config.timeout_duration ≡ b.config.timeout_duration =
      ap (λ k. k.timeout_duration) v.config in
    ground (arith, v.config, t)

apply-Simulates :
    (t now : ℕ) (e : Event) (b : CircuitBreaker) (g : Guard)
    → Simulates b g
    → ((apply now e b).0 ≡ (guard_apply t now e g).0)
      × Simulates (apply now e b).1 (guard_apply t now e g).1
unfolding apply guard_apply
apply-Simulates t now admits b g v = let r = admit-Simulates now b g v in (ap some r.0, r.1)
apply-Simulates t now succeeds b g v = (refl, on_success-Simulates now t b g v)
apply-Simulates t now fails b g v = (refl, on_failure-Simulates now t b g v)
apply-Simulates t now resets b g v = (refl, reset-Simulates now b g v)

pub run-Simulates :
    (t : ℕ) (s : List (ℕ × Event)) (b : CircuitBreaker) (g : Guard)
    → Simulates b g
    → ((run s b).0 ≡ (guard_run t s g).0) × Simulates (run s b).1 (guard_run t s g).1
unfolding run guard_run
run-Simulates t [] b g v = (refl, v)
run-Simulates t ((now, e) ∷ s) b g v =
    let r = apply-Simulates t now e b g v in
    let q = run-Simulates t s (apply now e b).1 (guard_apply t now e g).1 r.1 in
    (cc (r.0, q.0), q.1)

init-Simulates :
    (c : CircuitBreakerConfig) (now : ℕ)
    → Simulates (init (some c)) (guard_init c.name (some (guard_config c)) now)
unfolding init guard_init
init-Simulates c now = ground arith

-- A new breaker of the memory client and a new breaker of the utilities, under the config that has one
-- success close the circuit, no growing wait and a failure rate that is never reached, answer every
-- schedule of events alike, and agree on the state at its end.
pub same_answers :
    (c : CircuitBreakerConfig) (now t : ℕ) (s : List (ℕ × Event))
    → ((run s (init (some c))).0
        ≡ (guard_run t s (guard_init c.name (some (guard_config c)) now)).0)
      × ((run s (init (some c))).1.state
          ≡ state_of (guard_run t s (guard_init c.name (some (guard_config c)) now)).1.state)
same_answers c now t s =
    let r =
      run-Simulates t s (init (some c)) (guard_init c.name (some (guard_config c)) now)
        (init-Simulates c now) in
    (r.0, r.1.state)
