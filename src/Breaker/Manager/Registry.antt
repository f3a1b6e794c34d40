-- ===== src/Breaker/Manager/Registry.antt =====
-- Which breaker a name stands for.
use claude_library.Prelude.{ℕ, String, ◌≡◌, Option, none, some, arith, if◌then◌else◌}
use claude_library.Prelude.Key.{◌=?◌, string_key, beq_refl}
use claude_library.Prelude.Dict.{contains, lookup-insert, lookup-erase, contains-lookup}
use claude_library.Breaker.State.{CircuitBreakerConfig, CircuitBreaker}
use claude_library.Breaker.Transitions.{init}
use claude_library.Breaker.Manager.{
  CircuitBreakerManager, created, already_exists, create, get, get_or_create, remove,
}

module _ (name : String) (m : CircuitBreakerManager) where
  -- Creating a breaker under a name that is taken is an error and changes nothing; under a free name
  -- it registers the new breaker under that name and leaves every other name as it was.
  create_registers :
      (c : Option CircuitBreakerConfig) (now : ℕ)
      → (((b : CircuitBreaker)
            → get name m ≡ some b
            → create name c now m ≡ (already_exists name, m))
          × (get name m ≡ none
              → (j : String)
              → ((create name c now m).0 ≡ created (init name c now))
                × (get j (create name c now m).1
                    ≡ (if name =? j then some (init name c now) else get j m))))
  unfolding create get
  create_registers c now = (
    λ b h. ground (arith, contains-lookup name m),
    λ h j. ground (arith, contains-lookup name m, lookup-insert name j (init name c now) m),
  )

  -- A second `get_or_create` of a name, with any config at any time, returns the breaker that the
  -- first one returned, and changes nothing more.
  get_or_create_twice :
      (c c' : Option CircuitBreakerConfig) (now now' : ℕ)
      → let (b, m') = get_or_create name c now m in get_or_create name c' now' m' ≡ (b, m')
  unfolding get_or_create
  get_or_create_twice c c' now now' =
      ground (arith, lookup-insert name name (init name c now) m, beq_refl name)

  -- Removing a name says whether it was registered, frees it, and leaves every other name.
  remove_frees :
      (j : String)
      → ((remove name m).0 ≡ contains name m)
        × (get j (remove name m).1 ≡ (if name =? j then none else get j m))
  unfolding remove get
  remove_frees j =
      ground (arith, contains-lookup name m, lookup-erase name j m, string_key.beq_iff name j)
