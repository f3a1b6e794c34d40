-- ===== src/MemoryClient/State.antt =====
-- The data of the client: payloads, what the transport does, the client and its answers.
use claude_library.Prelude.{ℕ, String, Bool, false, Option, none, some, List, []}
use Prim.Native.String.{◌++◌}
use claude_library.MemoryBreaker.Calls.{CircuitBreakerState, CircuitBreaker}
use claude_library.MemoryClient.Cache.{InMemoryCache, empty_cache}
use claude_library.MemoryClient.Fallback.{Item, InMemoryFallback}

-- What the tagging protocol makes: a dict that has all the entries.
pub record Payload : Type 0 where
  pub content : String
  pub task_id : String
  pub project_id : String
  pub intent : String
  pub rest : String

abbrev pub to_item : Payload → Item
to_item p = record {
  content = some p.content;
  task_id = some p.task_id;
  project_id = some p.project_id;
  intent = some p.intent;
  similarity_score = none;
  rest = p.rest;
}

-- The exceptions that the client catches, and the others.
pub data Failure : Type 0 where
  connection_error timeout_error os_error : String → Failure
  other_error : String → Failure

-- What a method of the client does: it returns, or an exception leaves it.
pub data Reply (A : Type 0) : Type 0 where
  answered : A → Reply A
  raised : String → Reply A
  cancelled : Reply A

pub data Storage : Type 0 where
  memory_mcp cache fallback : Storage

-- `status` is "success" or "degraded", which is whether there is a warning.
pub record StoreResult : Type 0 where
  pub degraded : Bool
  pub storage : Storage
  pub task_id : String
  pub payload : Payload

pub record TaskHistoryResult : Type 0 where
  pub task : Option Item
  pub related_tasks : List Item
  pub source : Storage

pub data Health : Type 0 where
  cached_health : Bool → CircuitBreakerState → Health
  healthy : CircuitBreakerState → Health
  degraded_health : CircuitBreakerState → Health

-- The configuration that the methods read, with the in-memory cache and the in-memory fallback.
pub record MemoryMcpClient : Type 0 where
  pub cache_ttl_seconds : ℕ
  pub health_check_interval_seconds : ℕ
  pub circuit_breaker : CircuitBreaker
  pub fallback : InMemoryFallback
  pub cache : InMemoryCache
  pub degraded_mode : Bool
  pub last_health_check : Option ℕ

unfoldable pub create : ℕ → ℕ → CircuitBreaker → MemoryMcpClient
create ttl interval b = record {
  cache_ttl_seconds = ttl;
  health_check_interval_seconds = interval;
  circuit_breaker = b;
  fallback = [];
  cache = empty_cache 100;
  degraded_mode = false;
  last_health_check = none;
}

abbrev pub cache_key : String → String
cache_key task_id = "memory_mcp:task:" ++ task_id
