-- ===== src/MemoryClient/Client.antt =====
-- The methods of `MemoryMCPClient`. A call of the transport takes the time at which the breaker is
-- asked, the time at which the transport ends, and what it does. `dumps` and `loads` are those of json,
-- `lower` is the method of `str`.
use claude_library.Prelude.{
  ℕ, ◌+◌, ◌*◌, String, Bool, true, false, Option, none, some, List, [], ltb, if◌then◌else◌,
}
use claude_library.Prelude.Int.{ℤ, pos, ltb_ℤ}
use claude_library.Prelude.Key.{◌=?◌, string_key}
use claude_library.Prelude.Sort.{sorted}
use claude_library.MemoryBreaker.Calls as Calls
use claude_library.MemoryBreaker.Calls.{
  CircuitBreakerState, closed, CircuitBreaker, call, CallResult, refused, passed_on, Outcome,
}
use claude_library.MemoryClient.Cache.{set, get}
use claude_library.MemoryClient.Fallback as Fallback
use claude_library.MemoryClient.Fallback.{Item, search}
use claude_library.MemoryClient.State.{
  Payload, to_item, Failure, other_error, Reply, answered, raised, cancelled, memory_mcp, cache,
  fallback, StoreResult, TaskHistoryResult, Health, cached_health, healthy, degraded_health,
  MemoryMcpClient, cache_key,
}

-- The `except` clause: the breaker refused, or the transport failed in a way that is caught.
pub data Attempt (A : Type 0) : Type 0 where
  success : A → Attempt A
  unavailable : Attempt A
  escapes : String → Attempt A
  stopped : Attempt A

abbrev pub caught : {A : Type 0} → Failure → Attempt A
caught (other_error e) = escapes e
caught _ = unavailable

abbrev pub attempt : {A : Type 0} → CallResult A Failure → Attempt A
attempt (refused r) = unavailable
attempt (passed_on (Outcome.returned a)) = success a
attempt (passed_on (Outcome.raised f)) = caught f
attempt (passed_on Outcome.cancelled) = stopped

-- What a method does for a task when its transport call has ended.
abbrev pub with_breaker : CircuitBreaker → MemoryMcpClient → MemoryMcpClient
with_breaker b c = record c { circuit_breaker = b }

-- `sorted(..., key=similarity_score, reverse=True)`, where a missing score is 0.
abbrev pub score : Item → ℤ
score item = elim item.similarity_score [ none ↦ pos 0 | some s ↦ s ]

abbrev pub ranked_before : Item → Item → Bool
ranked_before a b = ltb_ℤ (score b) (score a)

abbrev pub alone : Option Item → TaskHistoryResult
alone task = record { task = task; related_tasks = []; source = memory_mcp }

abbrev pub wants_related : Bool → Item → Option String
wants_related false item = none
wants_related true item = elim item.content [
  | none ↦ none
  | some t ↦ if t =? "" then none else some t
]

abbrev pub with_related : Item → Reply (List Item) → Reply TaskHistoryResult
with_related item (answered items) =
    answered (record { task = some item; related_tasks = items; source = memory_mcp })
with_related item (raised x) = raised x
with_related item cancelled = cancelled

module _ (dumps : Item → String) (loads : String → Item) (lower : String → String) where
  unfoldable pub cache_payload : ℕ → Payload → MemoryMcpClient → MemoryMcpClient
  unfolding set
  cache_payload now p c = record c {
    cache = set now (cache_key p.task_id) (dumps (to_item p)) c.cache_ttl_seconds c.cache;
  }

  -- An empty text counts as nothing.
  unfoldable pub read_cached : Option String → Option Item
  read_cached none = none
  read_cached (some t) = if t =? "" then none else some (loads t)

  unfoldable pub get_from_cache : ℕ → String → MemoryMcpClient → Option Item × MemoryMcpClient
  unfolding get read_cached
  get_from_cache now task_id c =
      let (found, left) = get now (cache_key task_id) c.cache in
      (read_cached found, record c { cache = left })

  unfoldable pub store :
      ℕ → ℕ → Outcome Unit Failure → Payload → MemoryMcpClient → Reply StoreResult × MemoryMcpClient
  unfolding cache_payload
  store start now outcome p c =
      let (result, b) = call start now outcome c.circuit_breaker in
      let d = with_breaker b c in
      let kept = record d { fallback = Fallback.store (to_item p) d.fallback } in
      elim (attempt result) [
        | success u ↦ (
          answered
              (record { degraded = false; storage = memory_mcp; task_id = p.task_id; payload = p }),
          cache_payload now p d,
        )
        | unavailable ↦ (
          answered
              (record { degraded = true; storage = fallback; task_id = p.task_id; payload = p }),
          record (cache_payload now p kept) { degraded_mode = true },
        )
        | escapes e ↦ (raised e, d)
        | stopped ↦ (cancelled, d)
      ]

  unfoldable pub vector_search :
      ℕ
      → ℕ
      → Outcome (List Item) Failure
      → String
      → Option String
      → Option String
      → ℕ
      → MemoryMcpClient
      → Reply (List Item) × MemoryMcpClient
  unfolding search
  vector_search start now outcome query project_id task_type limit c =
      let (result, b) = call start now outcome c.circuit_breaker in
      let d = with_breaker b c in
      elim (attempt result) [
        | success items ↦ (answered (sorted ranked_before items), d)
        | unavailable ↦ (
          answered (search lower query project_id task_type limit d.fallback),
          record d { degraded_mode = true },
        )
        | escapes e ↦ (raised e, d)
        | stopped ↦ (cancelled, d)
      ]

  -- The `except` clause of `get_task_history`: the cache, then the fallback.
  unfoldable pub recall : ℕ → String → MemoryMcpClient → TaskHistoryResult × MemoryMcpClient
  unfolding get_from_cache
  recall now task_id c =
      let (cached, d) = get_from_cache now task_id c in
      elim cached [
        | some item ↦ (record { task = some item; related_tasks = []; source = cache }, d)
        | none ↦ (
          record { task = Fallback.get task_id d.fallback; related_tasks = []; source = fallback },
          d,
        )
      ]

  -- The rest of `get_task_history` when the transport has answered. An exception of the search that
  -- the client catches is caught inside it. A task without entries, which is falsy, is outside the
  -- model.
  unfoldable pub answer_found :
      ℕ
      → ℕ
      → Outcome (List Item) Failure
      → Bool
      → Option Item
      → MemoryMcpClient
      → Reply TaskHistoryResult × MemoryMcpClient
  unfolding vector_search
  answer_found start now outcome include_related none c = (answered (alone none), c)
  answer_found start now outcome include_related (some item) c =
      elim (wants_related include_related item) [
        | none ↦ (answered (alone (some item)), c)
        | some query ↦
            let (found, d) = vector_search start now outcome query none item.intent 5 c in
            (with_related item found, d)
      ]

  -- The second call is the search for related tasks, with its own times and outcome.
  unfoldable pub get_task_history :
      ℕ
      → ℕ
      → Outcome (Option Item) Failure
      → ℕ
      → ℕ
      → Outcome (List Item) Failure
      → String
      → Bool
      → MemoryMcpClient
      → Reply TaskHistoryResult × MemoryMcpClient
  unfolding answer_found recall
  get_task_history start now outcome start_2 now_2 outcome_2 task_id include_related c =
      let (result, b) = call start now outcome c.circuit_breaker in
      let d = with_breaker b c in
      elim (attempt result) [
        | success found ↦ answer_found start_2 now_2 outcome_2 include_related found d
        | unavailable ↦ (let (r, e) = recall now task_id d in (answered r, e))
        | escapes e ↦ (raised e, d)
        | stopped ↦ (cancelled, d)
      ]

-- The check is left out when the last one began less than the interval ago.
abbrev pub too_soon : ℕ → MemoryMcpClient → Bool
too_soon now c = elim c.last_health_check [
  | none ↦ false
  | some t ↦ ltb now (t + c.health_check_interval_seconds * 1000000)
]

unfoldable pub health_check :
    ℕ → ℕ → Outcome Bool Failure → MemoryMcpClient → Reply Health × MemoryMcpClient
health_check start now outcome c =
    let claimed = record c { last_health_check = some start } in
    let (result, b) = call start now outcome claimed.circuit_breaker in
    let d = with_breaker b claimed in
    if too_soon start c
    then (answered (cached_health c.degraded_mode c.circuit_breaker.state), c)
    else elim (attempt result) [
      | success u ↦ (answered (healthy closed), record d { degraded_mode = false })
      | unavailable ↦
          (answered (degraded_health d.circuit_breaker.state), record d { degraded_mode = true })
      | escapes e ↦ (raised e, d)
      | stopped ↦ (cancelled, d)
    ]

unfoldable pub reset_circuit_breaker : MemoryMcpClient → MemoryMcpClient
reset_circuit_breaker c = record c {
  circuit_breaker = Calls.reset c.circuit_breaker;
  degraded_mode = false;
}
