-- ===== src/Idempotency/Store.antt =====
-- `InMemoryIdempotencyStore` of patterns/webhook_idempotency/store.py. A clock reading is an argument,
-- in microseconds; times to live are in seconds.
use Prim.Native.String.{◌++◌ as ◌<>◌}
use claude_library.Prelude.{
  ℕ, ◌+◌, ◌*◌, String, Bool, true, false, not, Option, none, some, [], ltb, if◌then◌else◌, filter,
  count_if,
}
use claude_library.Prelude.Key.{string_key}
use claude_library.Prelude.Dict.{Dict, lookup, contains, insert, erase}

pub record CachedResponse : Type 0 where
  pub status_code : ℕ
  pub body : String
  pub headers : Dict String String
  pub processed_at : ℕ
  pub idempotency_key : String

pub record InMemoryIdempotencyStore : Type 0 where
  -- The responses, with the time at which each expires.
  pub store : Dict String (CachedResponse × ℕ)
  -- The locks, with the time at which each expires.
  pub locks : Dict String ℕ

abbrev pub empty_store : InMemoryIdempotencyStore
empty_store = record { store = []; locks = [] }

abbrev pub seconds : ℕ → ℕ
seconds n = n * 1000000

abbrev pub default_lock_timeout : ℕ
default_lock_timeout = 30

-- `f"lock:{key}"`
abbrev pub lock_key : String → String
lock_key key = "lock:" <> key

unfoldable pub get :
    ℕ → String → InMemoryIdempotencyStore → Option CachedResponse × InMemoryIdempotencyStore
get now key s = elim (lookup key s.store) [
  | none ↦ (none, s)
  | some (response, expires_at) ↦
      if ltb expires_at now
      then (none, record s { store = erase key s.store })
      else (some response, s)
]

unfoldable pub set :
    ℕ → String → CachedResponse → ℕ → InMemoryIdempotencyStore → InMemoryIdempotencyStore
set now key response ttl_seconds s = record s {
  store = insert key (response, now + seconds ttl_seconds) s.store;
}

unfoldable pub exists : ℕ → String → InMemoryIdempotencyStore → Bool × InMemoryIdempotencyStore
unfolding get
exists now key s =
    let (cached, s') = get now key s in (elim cached [ none ↦ false | some _ ↦ true ], s')

unfoldable pub delete : String → InMemoryIdempotencyStore → Bool × InMemoryIdempotencyStore
delete key s =
    if contains key s.store then (true, record s { store = erase key s.store }) else (false, s)

unfoldable pub acquire_lock :
    ℕ → String → ℕ → InMemoryIdempotencyStore → Bool × InMemoryIdempotencyStore
acquire_lock now key timeout_seconds s = elim (lookup (lock_key key) s.locks) [
  | none ↦ (true, locked)
  | some lock_expires ↦ if ltb now lock_expires then (false, s) else (true, locked)
]
  where
    locked : InMemoryIdempotencyStore
    locked = record s { locks = insert (lock_key key) (now + seconds timeout_seconds) s.locks }

unfoldable pub release_lock : String → InMemoryIdempotencyStore → InMemoryIdempotencyStore
release_lock key s =
    if contains (lock_key key) s.locks then record s { locks = erase (lock_key key) s.locks } else s

unfoldable pub cleanup_expired : ℕ → InMemoryIdempotencyStore → ℕ × InMemoryIdempotencyStore
cleanup_expired now s = (
  count_if (λ e. ltb e.1.1 now) s.store,
  record {
    store = filter (λ e. not (ltb e.1.1 now)) s.store;
    locks = filter (λ e. not (ltb e.1 now)) s.locks;
  },
)
