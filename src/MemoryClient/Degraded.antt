-- ===== src/MemoryClient/Degraded.antt =====
-- A task that is stored while the service is unavailable.
use claude_library.Prelude.{
  ℕ, ◌+◌, ◌*◌, String, ◌≡◌, refl, ap, ◌⊎◌, inl, inr, Bool, true, false, Option, none, some, List,
  All,
}
use claude_library.Prelude.Key.{◌=?◌, string_key, beq_refl}
use claude_library.Prelude.Dict.{lookup-insert}
use claude_library.MemoryBreaker.Calls.{Outcome, call}
use claude_library.MemoryClient.Cache.{set, get_found}
use claude_library.MemoryClient.Fallback as Fallback
use claude_library.MemoryClient.Fallback.{Item}
use claude_library.MemoryClient.State.{
  Payload, to_item, Failure, Reply, answered, StoreResult, TaskHistoryResult, MemoryMcpClient,
  cache_key,
}
use claude_library.MemoryClient.Client.{
  unavailable, attempt, with_breaker, cache_payload, read_cached, get_from_cache, store, recall,
  get_task_history,
}
use claude_library.MemoryClient.Schedule.{Event, IsOther, run}
use claude_library.MemoryClient.Kept.{IsKept, run-IsKept, breaker-IsKept, Attempt-cases}

-- The task of an answer.
abbrev pub task_of : Reply TaskHistoryResult → Option Item
task_of (answered r) = r.task
task_of _ = none

abbrev pub stored_degraded : Reply StoreResult → Bool
stored_degraded (answered r) = r.degraded
stored_degraded _ = false

-- `loads` reads what `dumps` writes for the item, which is not the empty text.
pub record IsReadBack (dumps : Item → String) (loads : String → Item) (item : Item) : Type 0 where
  pub reads_back : loads (dumps item) ≡ item
  pub writes : (dumps item =? "") ≡ false

module _ (dumps : Item → String) (loads : String → Item) (lower : String → String) where
  module _ (start now : ℕ) (o : Outcome Unit Failure) (p : Payload) (c : MemoryMcpClient) where
    abbrev stored : Reply StoreResult × MemoryMcpClient
    stored = store dumps loads lower start now o p c

    fallen_back : IsKept dumps loads lower p.task_id (to_item p) (
        cache_payload dumps loads lower now p
          (record (with_breaker (call start now o c.circuit_breaker).1 c) {
            fallback = Fallback.store (to_item p) c.fallback;
          }))
    unfolding cache_payload set Fallback.store
    fallen_back =
        let key = cache_key p.task_id in
        let t = now + c.cache_ttl_seconds * 1000000 in
        let f = lookup-insert p.task_id p.task_id (to_item p) c.fallback in
        let e = lookup-insert key key (dumps (to_item p), t) c.cache.entries in
        record {
          backed = rw (f, beq_refl p.task_id) refl;
          cached = inr (t, rw (e, beq_refl key) refl);
        }

    -- A degraded store leaves the task in the fallback and in the cache.
    store_keeps :
        stored_degraded stored.0 ≡ true → IsKept dumps loads lower p.task_id (to_item p) stored.1
    unfolding store
    store_keeps h = elim (Attempt-cases (attempt (call start now o c.circuit_breaker).0)) [
      | inl (x, e) ↦
          let no : stored_degraded stored.0 ≡ false = rw (store, e) refl in absurd (cc (h, no))
      | inr (inl e) ↦
          rw (store, e) (record { backed = fallen_back.backed; cached = fallen_back.cached })
      | inr (inr (inl (x, e))) ↦
          let no : stored_degraded stored.0 ≡ false = rw (store, e) refl in absurd (cc (h, no))
      | inr (inr (inr e)) ↦
          let no : stored_degraded stored.0 ≡ false = rw (store, e) refl in absurd (cc (h, no))
    ]

  module _ (id : String) (item : Item) (c : MemoryMcpClient) (inverse : IsReadBack dumps loads item)
      (v : IsKept dumps loads lower id item c) where
    cached_kept :
        (now : ℕ)
        → ((get_from_cache dumps loads lower now id c).0 ≡ none)
          ⊎ ((get_from_cache dumps loads lower now id c).0 ≡ some item)
    unfolding get_from_cache read_cached
    cached_kept now = elim (get_found now (cache_key id) c.cache) [
      | inl e ↦ inl (rw e refl)
      | inr (x, there, e) ↦ elim v.cached [
        | inl lost ↦ absurd (cc (there, lost))
        | inr (t, same) ↦
            let text : x.0 ≡ dumps item = cc (there, same) in
            inr (rw (e, text, inverse.writes) (ap some inverse.reads_back))
      ]
    ]

    recall_kept : (now : ℕ) → (recall dumps loads lower now id c).0.task ≡ some item
    unfolding recall get_from_cache Fallback.get
    recall_kept now = elim (cached_kept now) [
      | inl e ↦ rw (recall, e) v.backed
      | inr e ↦ rw (recall, e) refl
    ]

  -- A task that is stored while the service is unavailable is the answer to `get_task_history`
  -- whenever the service is unavailable then, whatever the client did in between, at whatever times,
  -- except store the same task again, if its JSON text is not empty and is read back as the task.
  pub degraded_store_found :
      (start now : ℕ) (o : Outcome Unit Failure) (p : Payload) (c : MemoryMcpClient)
      (between : List Event) (start_1 now_1 : ℕ) (o_1 : Outcome (Option Item) Failure)
      (start_2 now_2 : ℕ) (o_2 : Outcome (List Item) Failure) (related : Bool)
      → let stored = store dumps loads lower start now o p c in
        let later = run dumps loads lower between stored.1 in
        IsReadBack dumps loads (to_item p)
        → stored_degraded stored.0 ≡ true
        → All (IsOther p.task_id) between
        → attempt (call start_1 now_1 o_1 later.circuit_breaker).0 ≡ unavailable
        → task_of
            (get_task_history dumps loads lower start_1 now_1 o_1 start_2 now_2 o_2 p.task_id
              related later).0
          ≡ some (to_item p)
  unfolding get_task_history
  degraded_store_found start now o p c between start_1 now_1 o_1 start_2 now_2 o_2 related inverse h
        others u =
      let stored = store dumps loads lower start now o p c in
      let later = run dumps loads lower between stored.1 in
      let v =
        run-IsKept dumps loads lower p.task_id (to_item p) between stored.1 others
          (store_keeps start now o p c h) in
      let b = (call start_1 now_1 o_1 later.circuit_breaker).1 in
      let w = breaker-IsKept dumps loads lower p.task_id (to_item p) later v b in
      rw (get_task_history, u)
        (recall_kept p.task_id (to_item p) (with_breaker b later) inverse w now_1)
