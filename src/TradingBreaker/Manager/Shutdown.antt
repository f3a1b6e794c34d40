-- ===== src/TradingBreaker/Manager/Shutdown.antt =====
-- What a shutdown of all trading breakers does.
use claude_library.Prelude.{ℕ, ◌≡◌, refl, List, [], ◌∷◌, ◌++◌, arith, length, count_if}
use claude_library.Prelude.Dict.{values}
use claude_library.TradingBreaker.State.{closed, opened, half_open, CircuitBreaker, Notice}
use claude_library.TradingBreaker.Transitions.{execute_recovery_callbacks}
use claude_library.TradingBreaker.Calls.{force_close}
use claude_library.TradingBreaker.Manager.{
  CircuitBreakerManager, is_in, get_system_status, shutdown_all,
}

-- The recovery callbacks of all breakers, in the order of the breakers.
pub all_recoveries : List CircuitBreaker → List Notice
all_recoveries [] = []
all_recoveries (b ∷ bs) = execute_recovery_callbacks b ++ all_recoveries bs

force_close_lem :
    (now : ℕ) (b : CircuitBreaker)
    → ((force_close now b).0.state ≡ closed)
      × ((force_close now b).1 ≡ execute_recovery_callbacks b)
unfolding force_close execute_recovery_callbacks
force_close_lem now b = ground arith

shutdown_counts :
    (now : ℕ) (m : CircuitBreakerManager)
    → let bs = values (shutdown_all now m).0 in
      (count_if (is_in opened) bs ≡ 0)
      × (count_if (is_in half_open) bs ≡ 0)
      × (length bs ≡ length (values m))
unfolding shutdown_all
shutdown_counts now [] = (refl, refl, refl)
shutdown_counts now ((name, b) ∷ m) = ground (arith, force_close_lem now b, shutdown_counts now m)

shutdown_notices :
    (now : ℕ) (m : CircuitBreakerManager) → (shutdown_all now m).1 ≡ all_recoveries (values m)
unfolding shutdown_all all_recoveries
shutdown_notices now [] = refl
shutdown_notices now ((name, b) ∷ m) = cc ((force_close_lem now b).1, shutdown_notices now m)

-- After a shutdown every breaker is closed, by the count of the system status, and every recovery
-- callback has been called once, breaker by breaker, also those of breakers that were closed before.
shutdown_closes :
    (now : ℕ) (m : CircuitBreakerManager)
    → let (m', notices) = shutdown_all now m in
      ((get_system_status m').closed_breakers ≡ length (values m))
      × ((get_system_status m').open_breakers ≡ 0)
      × ((get_system_status m').half_open_breakers ≡ 0)
      × (notices ≡ all_recoveries (values m))
unfolding get_system_status
shutdown_closes now m =
    let c = shutdown_counts now m in (omega (arith, c), c.0, c.1, shutdown_notices now m)
