-- ===== src/Idempotency/Wrapper.antt =====
-- The `idempotent` wrapper of patterns/webhook_idempotency/middleware.py, in the parts before and after
-- the handler runs. No await of the in-memory store suspends, so that each part is one step.
use Prim.Native.String.{◌++◌ as ◌<>◌}
use claude_library.Prelude.{
  ℕ, zero, suc, String, Bool, true, ◌&&◌, Option, none, some, List, [], ◌∷◌, ltb, leb,
  if◌then◌else◌, any,
}
use claude_library.Prelude.Key.{string_key, ◌=?◌}
use claude_library.Prelude.Dict.{Dict, insert}
use claude_library.Idempotency.Store.{
  CachedResponse, InMemoryIdempotencyStore, default_lock_timeout, get, set, acquire_lock,
  release_lock,
}

-- The parameters of the decorator, the header's name aside: a request comes with the header's value.
pub record Settings : Type 0 where
  pub ttl_seconds : ℕ
  pub key_from_body : Bool
  pub methods : List String

abbrev pub default_settings : Settings
default_settings = record {
  ttl_seconds = 86400;
  key_from_body = true;
  methods = "POST" ∷ "PUT" ∷ "PATCH" ∷ [];
}

pub record Request : Type 0 where
  pub method : String
  pub key_header : Option String
  pub body : String

pub record Response : Type 0 where
  pub status_code : ℕ
  -- None for a response that has no attribute `body`.
  pub body : Option String
  pub headers : Dict String String

-- How the part before the handler ends: with the handler without a key, the cached response, the
-- answer 409, or the handler under the lock of a key.
pub data Decision : Type 0 where
  passes : Decision
  replays : Response → Decision
  conflicts : Decision
  runs : String → Decision

-- A handler returns a response or raises.
pub data Outcome : Type 0 where
  responded : Response → Outcome
  raised : Outcome

abbrev present : Option String → Option String
present none = none
present (some key) = if key =? "" then none else some key

-- `key[:n]`
first : ℕ → String → String
first zero s = ""
first (suc n) String.[] = ""
first (suc n) (String.◌∷◌ c s) = String.◌∷◌ c (first n s)

-- `hash` is the hexadecimal SHA-256 of a body.
unfoldable pub key_of : (String → String) → Settings → Request → Option String
key_of hash o r =
    if any (λ m. m =? r.method) o.methods
    then elim (present r.key_header) [
      | some key ↦ some key
      | none ↦ if o.key_from_body then present (some (hash r.body)) else none
    ]
    else none

unfoldable pub replay : String → CachedResponse → Response
unfolding first
replay key cached = record {
  status_code = cached.status_code;
  body = some cached.body;
  headers =
      insert "X-Idempotent-Key" (first 16 key <> "...")
        (insert "X-Idempotent-Replay" "true" cached.headers);
}

-- The lookup and the lock, for a request with a key.
unfoldable pub claim : ℕ → String → InMemoryIdempotencyStore → Decision × InMemoryIdempotencyStore
unfolding get acquire_lock replay
claim now key s =
    let (cached, s') = get now key s in
    elim cached [
      | some c ↦ (replays (replay key c), s')
      | none ↦
          let (acquired, s'') = acquire_lock now key default_lock_timeout s' in
          if acquired then (runs key, s'') else (conflicts, s'')
    ]

unfoldable pub begin :
    (String → String)
    → Settings
    → ℕ
    → Request
    → InMemoryIdempotencyStore
    → Decision × InMemoryIdempotencyStore
unfolding key_of claim
begin hash o now r s = elim (key_of hash o r) [ none ↦ (passes, s) | some key ↦ claim now key s ]

-- `200 <= response.status_code < 500`
abbrev pub is_cacheable : Response → Bool
is_cacheable r = leb 200 r.status_code && ltb r.status_code 500

abbrev pub text_of : Option String → String
text_of none = ""
text_of (some body) = body

unfoldable pub cached_response : ℕ → String → Response → CachedResponse
cached_response now key r = record {
  status_code = r.status_code;
  body = text_of r.body;
  headers = r.headers;
  processed_at = now;
  idempotency_key = key;
}

-- The part after the handler that ran under the lock of a key.
unfoldable pub finish :
    ℕ → Settings → String → Outcome → InMemoryIdempotencyStore → InMemoryIdempotencyStore
unfolding set release_lock cached_response
finish now o key raised s = release_lock key s
finish now o key (responded r) s =
    release_lock key
      (if is_cacheable r then set now key (cached_response now key r) o.ttl_seconds s else s)
