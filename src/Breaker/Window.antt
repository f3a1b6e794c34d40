-- ===== src/Breaker/Window.antt =====
-- The failure window: `recent_failures` is cut at its left end only, which is right because it is
-- sorted as long as the clock is not set back.
use claude_library.Prelude.{
  ℕ, ◌+◌, ◌≤◌, String, ◌≡◌, Option, List, [], ◌∷◌, ◌++◌, arith, ltb, All, All-append, drop_while,
  Bool-cases, inl, inr,
}
use claude_library.Breaker.State.{CircuitBreakerConfig, CircuitBreaker, seconds}
use claude_library.Breaker.Transitions.{init}
use claude_library.Breaker.Calls.{admit, on_success, on_failure, force_open, force_close, reset}
use claude_library.Breaker.Schedule.{
  Event, admits, succeeds, fails, forces_open, forces_close, resets, apply, run,
}

abbrev pub IsSorted : List ℕ → Type 0
IsSorted [] = Unit
IsSorted (x ∷ xs) = All (λ y. x ≤ y) xs × IsSorted xs

All-mono : (a b : ℕ) (xs : List ℕ) → a ≤ b → All (λ y. b ≤ y) xs → All (λ y. a ≤ y) xs
All-mono a b [] h p = tt
All-mono a b (x ∷ xs) h (p, ps) = (omega arith, All-mono a b xs h ps)

All-le : (a b : ℕ) (xs : List ℕ) → a ≤ b → All (λ y. y ≤ a) xs → All (λ y. y ≤ b) xs
All-le a b [] h p = tt
All-le a b (x ∷ xs) h (p, ps) = (omega arith, All-le a b xs h ps)

IsSorted-append :
    (xs : List ℕ) (now : ℕ) → IsSorted xs → All (λ y. y ≤ now) xs → IsSorted (xs ++ now ∷ [])
IsSorted-append [] now s l = (tt, tt)
IsSorted-append (x ∷ xs) now (p, s) (h, l) =
    (All-append (λ y. x ≤ y) xs (now ∷ []) p (h, tt), IsSorted-append xs now s l)

-- The part of a list that `_clean_old_failures` keeps.
module _ (w now : ℕ) where
  abbrev kept : List ℕ → List ℕ
  kept xs = drop_while (λ t. ltb (t + w) now) xs

  kept-IsSorted : (xs : List ℕ) → IsSorted xs → IsSorted (kept xs)
  kept-IsSorted [] s = tt
  kept-IsSorted (x ∷ xs) (p, s) = elim (Bool-cases (ltb (x + w) now)) [
    | inl e ↦ rw e (kept-IsSorted xs s)
    | inr e ↦ rw e (p, s)
  ]

  kept-le : (a : ℕ) (xs : List ℕ) → All (λ y. y ≤ a) xs → All (λ y. y ≤ a) (kept xs)
  kept-le a [] l = tt
  kept-le a (x ∷ xs) (p, l) = elim (Bool-cases (ltb (x + w) now)) [
    | inl e ↦ rw e (kept-le a xs l)
    | inr e ↦ rw e (p, l)
  ]

  not_old : (a : ℕ) (xs : List ℕ) → now ≤ a + w → All (λ y. a ≤ y) xs → All (λ t. now ≤ t + w) xs
  not_old a [] h p = tt
  not_old a (x ∷ xs) h (p, ps) = (omega arith, not_old a xs h ps)

  kept_recent : (xs : List ℕ) → IsSorted xs → All (λ t. now ≤ t + w) (kept xs)
  kept_recent [] s = tt
  kept_recent (x ∷ xs) (p, s) = elim (Bool-cases (ltb (x + w) now)) [
    | inl e ↦ rw e (kept_recent xs s)
    | inr e ↦ rw e (ground arith, not_old x xs (ground arith) p)
  ]

-- The failures are in order of time, and none lies in the future.
pub record IsTimely (clock : ℕ) (b : CircuitBreaker) : Type 0 where
  pub sorted : IsSorted b.recent_failures
  pub past : All (λ y. y ≤ clock) b.recent_failures

abbrev window : CircuitBreaker → ℕ
window b = seconds b.config.failure_window_seconds

module _ (now t : ℕ) (b : CircuitBreaker) where
  failures-on_success :
      (on_success now t b).0.recent_failures ≡ kept (window b) now b.recent_failures
  unfolding on_success
  failures-on_success = ground arith

  failures-on_failure :
      (on_failure now t b).0.recent_failures ≡ kept (window b) now (b.recent_failures ++ now ∷ [])
  unfolding on_failure
  failures-on_failure = ground arith

failures_kept :
    (now : ℕ) (b : CircuitBreaker)
    → ((admit now b).1.recent_failures ≡ b.recent_failures)
      × ((force_open now b).0.recent_failures ≡ b.recent_failures)
      × ((force_close now b).0.recent_failures ≡ b.recent_failures)
unfolding admit force_open force_close
failures_kept now b = ground arith

module _ (clock now : ℕ) (b : CircuitBreaker) (later : clock ≤ now) (v : IsTimely clock b) where
  past_now : All (λ y. y ≤ now) b.recent_failures
  past_now = All-le clock now b.recent_failures later v.past

  apply-IsTimely : (e : Event) → IsTimely now (apply now e b)
  unfolding apply reset
  apply-IsTimely admits = record {
    sorted = rw (failures_kept now b).0 v.sorted;
    past = rw (failures_kept now b).0 past_now;
  }
  apply-IsTimely (succeeds t) = record {
    sorted = rw (failures-on_success now t b) (kept-IsSorted (window b) now _ v.sorted);
    past = rw (failures-on_success now t b) (kept-le (window b) now now _ past_now);
  }
  apply-IsTimely (fails t) = record {
    sorted =
        rw (failures-on_failure now t b)
          (kept-IsSorted (window b) now _ (IsSorted-append _ now v.sorted past_now));
    past = rw (failures-on_failure now t b) (
        kept-le (window b) now now _
          (All-append (λ y. y ≤ now) b.recent_failures (now ∷ []) past_now (omega arith)));
  }
  apply-IsTimely forces_open = record {
    sorted = rw (failures_kept now b).1 v.sorted;
    past = rw (failures_kept now b).1 past_now;
  }
  apply-IsTimely forces_close = record {
    sorted = rw (failures_kept now b).2 v.sorted;
    past = rw (failures_kept now b).2 past_now;
  }
  apply-IsTimely resets = record { sorted = tt; past = tt }

-- The times of a schedule do not go back, and `last` is not before the latest of them.
abbrev pub IsOrdered : ℕ → List (ℕ × Event) → ℕ → Type 0
IsOrdered clock [] last = clock ≤ last
IsOrdered clock ((now, e) ∷ s) last = (clock ≤ now) × IsOrdered now s last

run-IsTimely :
    (s : List (ℕ × Event)) (clock last : ℕ) (b : CircuitBreaker)
    → IsOrdered clock s last
    → IsTimely clock b
    → IsTimely last (run s b)
unfolding run
run-IsTimely [] clock last b o v = record { sorted = v.sorted; past = past_now clock last b o v }
run-IsTimely ((now, e) ∷ s) clock last b o v =
    run-IsTimely s now last (apply now e b) o.1 (apply-IsTimely clock now b o.0 v e)

-- As long as the clock is not set back, every failure that a failing call leaves in the record lies
-- within the failure window, whatever was called before it.
pub failures_within_window :
    (name : String) (c : Option CircuitBreakerConfig) (made : ℕ) (s : List (ℕ × Event)) (now t : ℕ)
    → IsOrdered made s now
    → let b = run s (init name c made) in
      All
        (λ u. now ≤ u + seconds b.config.failure_window_seconds)
        (on_failure now t b).0.recent_failures
unfolding init
failures_within_window name c made s now t o =
    let b : CircuitBreaker = run s (init name c made) in
    let v = run-IsTimely s made now (init name c made) o (record { sorted = tt; past = tt }) in
    rw (failures-on_failure now t b)
      (kept_recent (window b) now _ (IsSorted-append _ now v.sorted v.past))
