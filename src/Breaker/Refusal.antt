-- ===== src/Breaker/Refusal.antt =====
-- When a breaker refuses a call, and the two ways in which it goes on refusing for ever.
use claude_library.Prelude.{
  ℕ, ◌+◌, ◌-◌, ◌<◌, String, ◌≡◌, refl, ap, ◌∙◌, Option, none, some, List, [], ◌∷◌, arith, length,
}
use claude_library.Breaker.State.{
  closed, opened, half_open, CircuitBreakerConfig, CircuitBreaker, seconds,
}
use claude_library.Breaker.Transitions.{init}
use claude_library.Breaker.Calls.{
  Outcome, cancelled, refused, passed_on, refused_open, refused_limit, admit, call, force_open,
}

module _ {A E : Type 0} (start now : ℕ) (outcome : Outcome A E) (b : CircuitBreaker) where
  -- Until the backoff after the last failure is over, an open breaker refuses every call, does not
  -- change, notifies no one, and names the exact time that is left.
  pub call_while_open :
      {t : ℕ}
      → b.state ≡ opened
      → b.last_failure_time ≡ some t
      → start < t + seconds b.current_backoff
      → call start now outcome b
        ≡ (refused (refused_open (t + seconds b.current_backoff - start)), b, [])
  unfolding call
  call_while_open o l h = ground arith

  -- A closed breaker lets every call through.
  pub call_when_closed : b.state ≡ closed → (call start now outcome b).0 ≡ passed_on outcome
  unfolding call
  call_when_closed c = ground arith

-- The breaker after calls at the given times whose functions are cancelled.
pub cancelled_calls : List (ℕ × ℕ) → CircuitBreaker → CircuitBreaker
cancelled_calls [] b = b
cancelled_calls ((start, now) ∷ s) b =
    cancelled_calls s (call {A = Unit} {E = Unit} start now cancelled b).1

pub admissions : List ℕ → CircuitBreaker → CircuitBreaker
admissions [] b = b
admissions (t ∷ ts) b = admissions ts (admit t b).1

admit_forced :
    (t : ℕ) (b : CircuitBreaker)
    → b.state ≡ opened
    → b.last_failure_time ≡ none
    → admit t b ≡ (refused_open (seconds b.current_backoff), b)
unfolding admit
admit_forced t b o l = ground arith

admissions_forced :
    (ts : List ℕ) (b : CircuitBreaker)
    → b.state ≡ opened
    → b.last_failure_time ≡ none
    → admissions ts b ≡ b
unfolding admissions
admissions_forced [] b o l = refl
admissions_forced (t ∷ ts) b o l =
    rw (ap (λ r. r.1) (admit_forced t b o l)) (admissions_forced ts b o l)

forced_backoff :
    (name : String) (c : Option CircuitBreakerConfig) (made forced : ℕ)
    → let b = (force_open forced (init name c made)).0 in
      b.current_backoff ≡ b.config.timeout_duration
unfolding force_open init
forced_backoff name c made forced = ground arith

-- A breaker that is forced open before any call has failed has no failure to count its wait from: it
-- refuses every call, however late, and always asks for the whole timeout.
pub forced_open_stays :
    (name : String) (c : Option CircuitBreakerConfig) (made forced : ℕ) (ts : List ℕ) (t : ℕ)
    → let b = (force_open forced (init name c made)).0 in
      admit t (admissions ts b) ≡ (refused_open (seconds b.config.timeout_duration), b)
unfolding force_open init
forced_open_stays name c made forced ts t =
    let b : CircuitBreaker = (force_open forced (init name c made)).0 in
    rw (admissions_forced ts b refl refl) (
      admit_forced t b refl refl
      ∙ ap (λ k. (refused_open (seconds k), b)) (forced_backoff name c made forced))

module _ (b : CircuitBreaker) where
  -- A cancelled call uses up a test of the half-open state and gives none back.
  cancelled_test :
      (start now : ℕ)
      → b.state ≡ half_open
      → b.half_open_calls < b.config.half_open_max_calls
      → (call {A = Unit} {E = Unit} start now cancelled b).1
        ≡ record b { half_open_calls = b.half_open_calls + 1 }
  unfolding call
  cancelled_test start now h l = ground arith

  admit_exhausted :
      (t : ℕ)
      → b.state ≡ half_open
      → b.half_open_calls ≡ b.config.half_open_max_calls
      → admit t b ≡ (refused_limit, b)
  unfolding admit
  admit_exhausted t h l = ground arith

admissions_exhausted :
    (ts : List ℕ) (b : CircuitBreaker)
    → b.state ≡ half_open
    → b.half_open_calls ≡ b.config.half_open_max_calls
    → admissions ts b ≡ b
unfolding admissions
admissions_exhausted [] b h l = refl
admissions_exhausted (t ∷ ts) b h l =
    rw (ap (λ r. r.1) (admit_exhausted b t h l)) (admissions_exhausted ts b h l)

-- Where the functions of all remaining test calls of a half-open breaker are cancelled, it refuses
-- every later call, however late: no time limit leads out of the half-open state.
pub cancelled_tests_wedge :
    (s : List (ℕ × ℕ)) (b : CircuitBreaker)
    → b.state ≡ half_open
    → b.half_open_calls + length s ≡ b.config.half_open_max_calls
    → (ts : List ℕ) (t : ℕ) → (admit t (admissions ts (cancelled_calls s b))).0 ≡ refused_limit
unfolding cancelled_calls
cancelled_tests_wedge [] b h l ts t =
    let l' : b.half_open_calls ≡ b.config.half_open_max_calls = omega arith in
    rw (admissions_exhausted ts b h l') (ap (λ r. r.0) (admit_exhausted b t h l'))
cancelled_tests_wedge ((start, now) ∷ s) b h l ts t =
    rw (cancelled_test b start now h (omega arith)) (
      cancelled_tests_wedge s (record b { half_open_calls = b.half_open_calls + 1 }) h (omega arith)
        ts t)
