-- ===== src/Breaker/Manager.antt =====
-- `CircuitBreakerManager`: breakers by name. The dict holds the breakers' own states, so that what a
-- caller does with a breaker that it got is an `update` of its entry.
pub mod Registry
pub mod Status
use claude_library.Prelude.{
  ℕ, ◌+◌, ◌-◌, String, ◌≡◌, Bool, true, false, Option, none, some, List, [], ◌∷◌, ◌++◌,
  if◌then◌else◌, length, count_if, any,
}
use claude_library.Prelude.Key.{◌=?◌, string_key}
use claude_library.Prelude.Dict.{Dict, values, map_values, lookup, contains, insert, erase}
use claude_library.Breaker.State.{
  CircuitState, closed, opened, half_open, state_key, CircuitBreakerConfig, CircuitBreaker, Notice,
}
use claude_library.Breaker.Transitions.{init}
use claude_library.Breaker.Calls.{force_close, reset}

abbrev pub CircuitBreakerManager : Type 0
CircuitBreakerManager = Dict String CircuitBreaker

-- The `ValueError` of `create` carries the name that is taken.
pub data Created : Type 0 where
  created : CircuitBreaker → Created
  already_exists : String → Created

unfoldable pub create :
    String
    → Option CircuitBreakerConfig
    → ℕ
    → CircuitBreakerManager
    → Created × CircuitBreakerManager
create name c now m =
    if contains name m
    then (already_exists name, m)
    else (created (init name c now), insert name (init name c now) m)

unfoldable pub get : String → CircuitBreakerManager → Option CircuitBreaker
get name m = lookup name m

unfoldable pub get_or_create :
    String
    → Option CircuitBreakerConfig
    → ℕ
    → CircuitBreakerManager
    → CircuitBreaker × CircuitBreakerManager
get_or_create name c now m = elim (lookup name m) [
  | some b ↦ (b, m)
  | none ↦ (init name c now, insert name (init name c now) m)
]

unfoldable pub remove : String → CircuitBreakerManager → Bool × CircuitBreakerManager
remove name m = if contains name m then (true, erase name m) else (false, m)

abbrev pub is_in : CircuitState → CircuitBreaker → Bool
is_in s b = b.state =? s

-- The counts of `get_system_status`.
pub record SystemStatus : Type 0 where
  pub total_circuit_breakers : ℕ
  pub open_breakers : ℕ
  pub half_open_breakers : ℕ
  pub closed_breakers : ℕ

unfoldable pub get_system_status : CircuitBreakerManager → SystemStatus
get_system_status m = record {
  total_circuit_breakers = total;
  open_breakers = open_count;
  half_open_breakers = half_open_count;
  closed_breakers = total - open_count - half_open_count;
}
  where
    total : ℕ
    total = length (values m)

    open_count : ℕ
    open_count = count_if (is_in opened) (values m)

    half_open_count : ℕ
    half_open_count = count_if (is_in half_open) (values m)

unfoldable pub get_open_breakers : CircuitBreakerManager → List String
get_open_breakers [] = []
get_open_breakers ((name, b) ∷ m) =
    let rest = get_open_breakers m in if is_in opened b then name ∷ rest else rest

unfoldable pub any_open : CircuitBreakerManager → Bool
any_open m = any (is_in opened) (values m)

-- Every breaker is closed in turn and calls its recovery callbacks.
unfoldable pub shutdown_all : ℕ → CircuitBreakerManager → CircuitBreakerManager × List Notice
shutdown_all now [] = ([], [])
shutdown_all now ((name, b) ∷ m) =
    let (c, notices) = force_close now b in
    let (rest, more) = shutdown_all now m in ((name, c) ∷ rest, notices ++ more)

unfoldable pub reset_all : ℕ → CircuitBreakerManager → CircuitBreakerManager
reset_all now m = map_values (reset now) m
