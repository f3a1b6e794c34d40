-- ===== src/MemoryClient/Kept.antt =====
-- What is stored while the service is unavailable is found again.
use claude_library.Prelude.{
  ℕ, ◌+◌, ◌*◌, String, ◌≡◌, ◌≢◌, refl, ◌⊎◌, inl, inr, Bool, true, false, Option, none, some, List,
  [], ◌∷◌, Bool-cases, Option-cases, All,
}
use text.Mathlib.TextLemmas.{append_cancel_left}
use claude_library.Prelude.Key.{◌=?◌, string_key}
use claude_library.Prelude.Dict.{lookup, lookup-insert}
use claude_library.MemoryBreaker.Calls.{Outcome, call, CircuitBreaker}
use claude_library.MemoryClient.Cache.{set, get-KeepsOrLoses}
use claude_library.MemoryClient.Fallback as Fallback
use claude_library.MemoryClient.Fallback.{Item, InMemoryFallback}
use claude_library.MemoryClient.State.{Payload, to_item, Failure, MemoryMcpClient, cache_key}
use claude_library.MemoryClient.Client.{
  Attempt, success, unavailable, escapes, stopped, attempt, with_breaker, cache_payload,
  get_from_cache, store, vector_search, too_soon, wants_related, recall, answer_found,
  get_task_history, health_check, reset_circuit_breaker,
}
use claude_library.MemoryClient.Schedule.{
  Event, stores, searches, recalls, checks, resets, IsOther, apply, run,
}

pub keys_differ : (a b : String) → a ≢ b → (cache_key a =? cache_key b) ≡ false
keys_differ a b h = elim (Bool-cases (cache_key a =? cache_key b)) [
  | inl e ↦ absurd (
      h (
        append_cancel_left "memory_mcp:task:" a b
          ((string_key.beq_iff (cache_key a) (cache_key b)).0 e)))
  | inr e ↦ e
]

differ : (a b : String) → a ≢ b → (a =? b) ≡ false
differ a b h = elim (Bool-cases (a =? b)) [
  | inl e ↦ absurd (h ((string_key.beq_iff a b).0 e))
  | inr e ↦ e
]

pub Attempt-cases :
    {A : Type 0} (a : Attempt A)
    → ((x : A) × (a ≡ success x))
      ⊎ (a ≡ unavailable)
      ⊎ ((e : String) × (a ≡ escapes e))
      ⊎ (a ≡ stopped)
Attempt-cases (success x) = inl (x, refl)
Attempt-cases unavailable = inr (inl refl)
Attempt-cases (escapes e) = inr (inr (inl (e, refl)))
Attempt-cases stopped = inr (inr (inr refl))

module _ (dumps : Item → String) (loads : String → Item) (lower : String → String) where
  -- The fallback has the task, and the cache has it or nothing under its key.
  pub record IsKept (id : String) (item : Item) (c : MemoryMcpClient) : Type 0 where
    pub backed : lookup id c.fallback ≡ some item
    pub cached :
        (lookup (cache_key id) c.cache.entries ≡ none)
        ⊎ ((t : ℕ) × (lookup (cache_key id) c.cache.entries ≡ some (dumps item, t)))

  module _ (id : String) (item : Item) (c : MemoryMcpClient) (v : IsKept id item c) where
    cache_payload-IsKept :
        (now : ℕ) (p : Payload)
        → p.task_id ≢ id
        → IsKept id item (cache_payload dumps loads lower now p c)
    unfolding cache_payload set
    cache_payload-IsKept now p h =
        let other =
          lookup-insert (cache_key p.task_id) (cache_key id)
            (dumps (to_item p), now + c.cache_ttl_seconds * 1000000) c.cache.entries in
        record { backed = v.backed; cached = rw (other, keys_differ p.task_id id h) v.cached }

    fallback-IsKept :
        (p : Payload)
        → p.task_id ≢ id
        → IsKept id item (record c { fallback = Fallback.store (to_item p) c.fallback })
    unfolding Fallback.store
    fallback-IsKept p h =
        let other = lookup-insert p.task_id id (to_item p) c.fallback in
        record { backed = rw (other, differ p.task_id id h) v.backed; cached = v.cached }

    pub breaker-IsKept : (b : CircuitBreaker) → IsKept id item (with_breaker b c)
    breaker-IsKept b = record { backed = v.backed; cached = v.cached }

    degraded-IsKept : (d : Bool) → IsKept id item (record c { degraded_mode = d })
    degraded-IsKept d = record { backed = v.backed; cached = v.cached }

    -- A look-up in the cache, of this task or of another.
    cache-IsKept :
        (now : ℕ) (other : String) → IsKept id item (get_from_cache dumps loads lower now other c).1
    unfolding get_from_cache
    cache-IsKept now other =
        let h = get-KeepsOrLoses now (cache_key other) c.cache (cache_key id) in
        record {
          backed = v.backed;
          cached = elim h [ inl same ↦ rw same v.cached | inr lost ↦ inl lost ];
        }

  module _ (id : String) (item : Item) (c : MemoryMcpClient) (v : IsKept id item c) where
    store-IsKept :
        (start now : ℕ) (o : Outcome Unit Failure) (p : Payload)
        → p.task_id ≢ id
        → IsKept id item (store dumps loads lower start now o p c).1
    unfolding store
    store-IsKept start now o p h =
        let (result, b) = call start now o c.circuit_breaker in
        let d = with_breaker b c in
        let w = breaker-IsKept id item c v b in
        let k = fallback-IsKept id item d w p h in
        elim (Attempt-cases (attempt result)) [
          | inl (x, e) ↦ rw (store, e) (cache_payload-IsKept id item d w now p h)
          | inr (inl e) ↦
              rw (store, e)
                (degraded-IsKept id item _ (cache_payload-IsKept id item _ k now p h) true)
          | inr (inr (inl (x, e))) ↦ rw (store, e) w
          | inr (inr (inr e)) ↦ rw (store, e) w
        ]

    search-IsKept :
        (start now : ℕ) (o : Outcome (List Item) Failure) (query : String)
        (project_id task_type : Option String) (limit : ℕ)
        → IsKept id item
            (vector_search dumps loads lower start now o query project_id task_type limit c).1
    unfolding vector_search
    search-IsKept start now o query project_id task_type limit =
        let (result, b) = call start now o c.circuit_breaker in
        let w = breaker-IsKept id item c v b in
        elim (Attempt-cases (attempt result)) [
          | inl (x, e) ↦ rw (vector_search, e) w
          | inr (inl e) ↦ rw (vector_search, e) (degraded-IsKept id item _ w true)
          | inr (inr (inl (x, e))) ↦ rw (vector_search, e) w
          | inr (inr (inr e)) ↦ rw (vector_search, e) w
        ]

    recall-IsKept :
        (now : ℕ) (other : String) → IsKept id item (recall dumps loads lower now other c).1
    unfolding recall
    recall-IsKept now other =
        let w = cache-IsKept id item c v now other in
        elim (Option-cases (get_from_cache dumps loads lower now other c).0) [
          | inl e ↦ rw (recall, e) w
          | inr (x, e) ↦ rw (recall, e) w
        ]

    health-IsKept :
        (start now : ℕ) (o : Outcome Bool Failure) → IsKept id item (health_check start now o c).1
    unfolding health_check
    health-IsKept start now o =
        let claimed : MemoryMcpClient = record c { last_health_check = some start } in
        let (result, b) = call start now o claimed.circuit_breaker in
        let w : IsKept id item claimed = record { backed = v.backed; cached = v.cached } in
        let d = breaker-IsKept id item claimed w b in
        elim (Bool-cases (too_soon start c)) [
          | inl t ↦ rw (health_check, t) v
          | inr t ↦ elim (Attempt-cases (attempt result)) [
            | inl (x, e) ↦ rw (health_check, t, e) (degraded-IsKept id item _ d false)
            | inr (inl e) ↦ rw (health_check, t, e) (degraded-IsKept id item _ d true)
            | inr (inr (inl (x, e))) ↦ rw (health_check, t, e) d
            | inr (inr (inr e)) ↦ rw (health_check, t, e) d
          ]
        ]

  module _ (id : String) (item : Item) (c : MemoryMcpClient) (v : IsKept id item c) where
    related-IsKept :
        (start_2 now_2 : ℕ) (o_2 : Outcome (List Item) Failure) (found : Option Item)
        (related : Bool)
        → IsKept id item (answer_found dumps loads lower start_2 now_2 o_2 related found c).1
    unfolding answer_found
    related-IsKept start_2 now_2 o_2 none related = v
    related-IsKept start_2 now_2 o_2 (some x) related =
        elim (Option-cases (wants_related related x)) [
          | inl e ↦ rw (answer_found, e) v
          | inr (query, e) ↦
              rw (answer_found, e)
                (search-IsKept id item c v start_2 now_2 o_2 query none x.intent 5)
        ]

  module _ (id : String) (item : Item) (c : MemoryMcpClient) (v : IsKept id item c) where
    history-IsKept :
        (start now : ℕ) (o : Outcome (Option Item) Failure) (start_2 now_2 : ℕ)
        (o_2 : Outcome (List Item) Failure) (other : String) (related : Bool)
        → IsKept id item
            (get_task_history dumps loads lower start now o start_2 now_2 o_2 other related c).1
    unfolding get_task_history
    history-IsKept start now o start_2 now_2 o_2 other related =
        let (result, b) = call start now o c.circuit_breaker in
        let d = with_breaker b c in
        let w = breaker-IsKept id item c v b in
        elim (Attempt-cases (attempt result)) [
          | inl (x, e) ↦
              rw (get_task_history, e) (related-IsKept id item d w start_2 now_2 o_2 x related)
          | inr (inl e) ↦ rw (get_task_history, e) (recall-IsKept id item d w now other)
          | inr (inr (inl (x, e))) ↦ rw (get_task_history, e) w
          | inr (inr (inr e)) ↦ rw (get_task_history, e) w
        ]

  apply-IsKept :
      (id : String) (item : Item) (e : Event) (c : MemoryMcpClient)
      → IsOther id e
      → IsKept id item c
      → IsKept id item (apply dumps loads lower e c)
  unfolding apply reset_circuit_breaker
  apply-IsKept id item (stores start now o p) c h v = store-IsKept id item c v start now o p h
  apply-IsKept id item (searches start now o query project_id task_type limit) c h v =
      search-IsKept id item c v start now o query project_id task_type limit
  apply-IsKept id item (recalls start now o start_2 now_2 o_2 other related) c h v =
      history-IsKept id item c v start now o start_2 now_2 o_2 other related
  apply-IsKept id item (checks start now o) c h v = health-IsKept id item c v start now o
  apply-IsKept id item resets c h v = record { backed = v.backed; cached = v.cached }

  pub run-IsKept :
      (id : String) (item : Item) (es : List Event) (c : MemoryMcpClient)
      → All (IsOther id) es
      → IsKept id item c
      → IsKept id item (run dumps loads lower es c)
  unfolding run
  run-IsKept id item [] c h v = v
  run-IsKept id item (e ∷ es) c (h, hs) v =
      run-IsKept id item es (apply dumps loads lower e c) hs (apply-IsKept id item e c h v)
