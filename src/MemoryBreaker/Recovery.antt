-- ===== src/MemoryBreaker/Recovery.antt =====
-- What becomes of the test call of an open breaker.
use claude_library.Prelude.{ℕ, ◌+◌, ◌-◌, ◌*◌, ◌≤◌, ◌<◌, ◌≡◌, some, arith}
use claude_library.MemoryBreaker.Calls.{
  closed, opened, state_key, CircuitBreaker, Outcome, returned, raised, refused, passed_on,
  refused_open, call,
}

abbrev pub waited : ℕ → CircuitBreaker → ℕ
waited t b = t + b.config.timeout_duration * 1000000

-- Where an open breaker that allows test calls has waited long enough, its next call runs. If that
-- succeeds, the circuit is closed with no failure on record. If it fails, the circuit is open, and a
-- call that starts before another whole wait is over is refused with the exact rest of the wait, and
-- changes nothing.
pub test_call_decides :
    {A E : Type 0} (b : CircuitBreaker) (t start now later end : ℕ) (a : A) (e : E)
    (o : Outcome A E)
    → b.state ≡ opened
    → b.last_failure_time ≡ some t
    → 1 ≤ b.config.half_open_max_calls
    → waited t b ≤ start
    → later < waited now b
    → (((call {A = A} {E = E} start now (returned a) b).0 ≡ passed_on (returned a))
        × ((call {A = A} {E = E} start now (returned a) b).1.state ≡ closed)
        × ((call {A = A} {E = E} start now (returned a) b).1.failure_count ≡ 0))
      × ((call {A = A} {E = E} start now (raised e) b).0 ≡ passed_on (raised e))
      × (let c = (call {A = A} {E = E} start now (raised e) b).1 in
          (c.state ≡ opened)
          × (call later end o c ≡ (refused (refused_open (waited now b - later)), c)))
unfolding call
test_call_decides b t start now later end a e o s l m w x = ground (arith, s, l, m, w, x)
