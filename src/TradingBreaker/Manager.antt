-- ===== src/TradingBreaker/Manager.antt =====
-- `CircuitBreakerManager`: breakers by name. The dict holds the breakers' own states.
pub mod Shutdown
use claude_library.Prelude.{
  ℕ, ◌+◌, ◌-◌, String, Bool, true, false, Option, none, some, List, [], ◌∷◌, ◌++◌, if◌then◌else◌,
  length, count_if, any,
}
use claude_library.Prelude.Key.{◌=?◌, string_key}
use claude_library.Prelude.Dict.{Dict, values, map_values, lookup, contains, insert, erase}
use claude_library.TradingBreaker.State.{
  CircuitState, closed, opened, half_open, state_key, CircuitType, CircuitBreakerConfig,
  CircuitBreaker, Notice,
}
use claude_library.TradingBreaker.Transitions.{init}
use claude_library.TradingBreaker.Calls.{force_close, reset}

abbrev pub CircuitBreakerManager : Type 0
CircuitBreakerManager = Dict String CircuitBreaker

-- The `ValueError` of `create_circuit_breaker` carries the name that is taken.
pub data Created : Type 0 where
  created : CircuitBreaker → Created
  already_exists : String → Created

unfoldable pub create_circuit_breaker :
    String
    → CircuitType
    → Option CircuitBreakerConfig
    → ℕ
    → CircuitBreakerManager
    → Created × CircuitBreakerManager
create_circuit_breaker name kind c now m =
    if contains name m
    then (already_exists name, m)
    else (created (init name kind c now), insert name (init name kind c now) m)

unfoldable pub get_circuit_breaker : String → CircuitBreakerManager → Option CircuitBreaker
get_circuit_breaker name m = lookup name m

unfoldable pub remove_circuit_breaker :
    String → CircuitBreakerManager → Bool × CircuitBreakerManager
remove_circuit_breaker name m = if contains name m then (true, erase name m) else (false, m)

abbrev pub is_in : CircuitState → CircuitBreaker → Bool
is_in s b = b.state =? s

-- The counts of `get_system_status`.
pub record SystemStatus : Type 0 where
  pub total_circuit_breakers : ℕ
  pub open_breakers : ℕ
  pub half_open_breakers : ℕ
  pub closed_breakers : ℕ

unfoldable pub get_system_status : CircuitBreakerManager → SystemStatus
get_system_status m = record {
  total_circuit_breakers = length (values m);
  open_breakers = count_if (is_in opened) (values m);
  half_open_breakers = count_if (is_in half_open) (values m);
  closed_breakers =
      length (values m)
      - count_if (is_in opened) (values m)
      - count_if (is_in half_open) (values m);
}

unfoldable pub get_open_breakers : CircuitBreakerManager → List String
get_open_breakers [] = []
get_open_breakers ((name, b) ∷ m) =
    let rest = get_open_breakers m in if is_in opened b then name ∷ rest else rest

unfoldable pub any_open : CircuitBreakerManager → Bool
any_open m = any (is_in opened) (values m)

-- Every breaker is closed in turn and calls its recovery callbacks.
unfoldable pub shutdown_all : ℕ → CircuitBreakerManager → CircuitBreakerManager × List Notice
shutdown_all now [] = ([], [])
shutdown_all now ((name, b) ∷ m) =
    let (c, notices) = force_close now b in
    let (rest, more) = shutdown_all now m in ((name, c) ∷ rest, notices ++ more)

unfoldable pub reset_all : ℕ → CircuitBreakerManager → CircuitBreakerManager
reset_all now m = map_values (reset now) m
