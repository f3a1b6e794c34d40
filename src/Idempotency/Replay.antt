-- ===== src/Idempotency/Replay.antt =====
-- What follows the end of a handler whose response is cached.
use mathlib.Core.Path.{subst}
use claude_library.Prelude.{
  ℕ, ◌+◌, ◌≤◌, String, ◌≡◌, ◌∙◌, ap, sym, some, List, [], ◌∷◌, arith, not, ltb, All, get_elem?,
  true, false, inl, inr, Bool-cases,
}
use claude_library.Prelude.Key.{string_key, ◌=?◌, beq_refl}
use claude_library.Prelude.Dict.{lookup, lookup-insert, lookup-erase, lookup-filter}
use claude_library.Idempotency.Store.{
  CachedResponse, InMemoryIdempotencyStore, seconds, default_lock_timeout, get, acquire_lock,
}
use claude_library.Idempotency.Wrapper.{
  Settings, Request, Response, replays, Outcome, responded, raised, key_of, claim, begin, finish,
  replay, is_cacheable, cached_response,
}
use claude_library.Idempotency.Schedule.{
  Service, Event, arrives, ends, cleans, start_if_runs, step, run, handlers, begin_cases,
  ends_cases, begin_claims, ends_at,
}
use claude_library.Idempotency.Locks.{count_of, count_of-remove_at}
use claude_library.Idempotency.Exclusion.{IsExclusive}

-- The response of a key is cached until a time, and no handler runs for the key.
pub record IsCached (key : String) (c : CachedResponse) (e : ℕ) (v : Service) : Type 0 where
  pub cached : lookup key v.store.store ≡ some (c, e)
  pub idle : handlers key v ≡ 0

module _ (key : String) (c : CachedResponse) (e : ℕ) where
  get_hits :
      (now : ℕ) (s : InMemoryIdempotencyStore)
      → lookup key s.store ≡ some (c, e)
      → now ≤ e
      → get now key s ≡ (some c, s)
  unfolding get
  get_hits now s h l = ground (arith, h)

  claim_hits :
      (now : ℕ) (s : InMemoryIdempotencyStore)
      → lookup key s.store ≡ some (c, e)
      → now ≤ e
      → claim now key s ≡ (replays (replay key c), s)
  unfolding claim
  claim_hits now s h l = ground (arith, get_hits now s h l)

  get_keeps :
      (now : ℕ) (k : String) (s : InMemoryIdempotencyStore)
      → lookup key s.store ≡ some (c, e)
      → (k =? key) ≡ false
      → lookup key (get now k s).1.store ≡ some (c, e)
  unfolding get
  get_keeps now k s h n = ground (arith, h, n, lookup-erase k key s.store)

  acquire_lock_keeps :
      (now t : ℕ) (k : String) (s : InMemoryIdempotencyStore)
      → (acquire_lock now k t s).1.store ≡ s.store
  unfolding acquire_lock
  acquire_lock_keeps now t k s = ground arith

  claim_keeps :
      (now : ℕ) (k : String) (s : InMemoryIdempotencyStore) (rs : List (String × ℕ))
      → lookup key s.store ≡ some (c, e)
      → (k =? key) ≡ false
      → let (d, s') = claim now k s in
        (lookup key s'.store ≡ some (c, e))
        × (count_of key (start_if_runs now d rs) ≡ count_of key rs)
  unfolding claim
  claim_keeps now k s rs h n = ground (
    arith,
    n,
    get_keeps now k s h n,
    acquire_lock_keeps now default_lock_timeout k (get now k s).1,
  )

  finish_keeps :
      (now : ℕ) (o : Settings) (k : String) (x : Outcome) (s : InMemoryIdempotencyStore)
      → lookup key s.store ≡ some (c, e)
      → (k =? key) ≡ false
      → lookup key (finish now o k x s).store ≡ some (c, e)
  unfolding finish
  finish_keeps now o k raised s h n = ground (arith, h, n)
  finish_keeps now o k (responded r) s h n = ground (
    arith,
    h,
    n,
    lookup-insert k key (cached_response now k r, now + seconds o.ttl_seconds) s.store,
  )

  module _ (hash : String → String) (o : Settings) (now : ℕ) (l : now ≤ e) (v : Service) where
    -- A claim of the key itself starts nothing; that of another key touches nothing of this one.
    claimed-IsCached :
        (k : String)
        → IsCached key c e v
        → let (d, s) = claim now k v.store in
          IsCached key c e (record { store = s; running = start_if_runs now d v.running })
    claimed-IsCached k x = elim (Bool-cases (k =? key)) [
      | inl q ↦
          let h = claim_hits now v.store x.cached l in
          let r = ap (λ j. claim now j v.store) ((string_key.beq_iff k key).0 q) ∙ h in
          record { cached = rw r x.cached; idle = rw r x.idle }
      | inr q ↦
          let h = claim_keeps now k v.store v.running x.cached q in
          record { cached = h.0; idle = h.1 ∙ x.idle }
    ]

    step-IsCached : (a : Event) → IsCached key c e v → IsCached key c e (step hash o now a v)
    unfolding step
    step-IsCached (arrives r) x =
        begin_cases hash o now r v.store
          (λ b.
            IsCached key c e (record { store = b.1; running = start_if_runs now b.0 v.running }))
          x (λ k q. claimed-IsCached k x)
    step-IsCached (ends i outcome) x =
        ends_cases hash o now i outcome v (IsCached key c e) x (λ h q.
          let n = count_of-remove_at key i v.running h q in
          record {
            cached = finish_keeps now o h.0 outcome v.store x.cached (ground (arith, n, x.idle));
            idle = ground (arith, n, x.idle);
          })
    step-IsCached cleans x = record {
      cached =
          lookup-filter (λ w. not (ltb w.1 now)) key (c, e) v.store.store x.cached (ground arith);
      idle = x.idle;
    }

  run-IsCached :
      (hash : String → String) (o : Settings) (s : List (ℕ × Event)) (v : Service)
      → All (λ a. a.0 ≤ e) s
      → IsCached key c e v
      → IsCached key c e (run hash o s v)
  unfolding run
  run-IsCached hash o [] v b x = x
  run-IsCached hash o ((now, a) ∷ s) v b x =
      run-IsCached hash o s (step hash o now a v) b.1 (step-IsCached hash o now b.0 v a x)

finish_caches :
    (now : ℕ) (o : Settings) (key : String) (r : Response) (s : InMemoryIdempotencyStore)
    → is_cacheable r ≡ true
    → lookup key (finish now o key (responded r) s).store
      ≡ some (cached_response now key r, now + seconds o.ttl_seconds)
unfolding finish
finish_caches now o key r s k = ground (
  arith,
  k,
  beq_refl key,
  lookup-insert key key (cached_response now key r, now + seconds o.ttl_seconds) s.store,
)

-- The service after the end of the only handler of a key, with a response that is cached.
finished-IsCached :
    (hash : String → String) (o : Settings) (now i : ℕ) (h : String × ℕ) (r : Response)
    (v : Service)
    → IsExclusive v
    → get_elem? v.running i ≡ some h
    → is_cacheable r ≡ true
    → IsCached h.0
        (cached_response now h.0 r)
        (now + seconds o.ttl_seconds)
        (step hash o now (ends i (responded r)) v)
finished-IsCached hash o now i h r v x q k =
    let n = count_of-remove_at h.0 i v.running h q in
    subst (IsCached h.0 (cached_response now h.0 r) (now + seconds o.ttl_seconds))
      (sym (ends_at hash o now i (responded r) v h q))
      (record {
        cached = finish_caches now o h.0 r v.store k;
        idle = ground (arith, n, x.single h.0, beq_refl h.0);
      })

-- Where a handler that holds its key alone ends with a response of a status from 200 to 499, then
-- until the response expires no handler runs for the key again, and every request with the key is
-- answered with that response, whatever other requests, ends and cleanups come in between.
pub replayed :
    (hash : String → String) (o : Settings) (now i : ℕ) (h : String × ℕ) (r : Response)
    (v : Service) (s : List (ℕ × Event)) (t : ℕ) (request : Request)
    → IsExclusive v
    → get_elem? v.running i ≡ some h
    → is_cacheable r ≡ true
    → All (λ a. a.0 ≤ now + seconds o.ttl_seconds) s
    → t ≤ now + seconds o.ttl_seconds
    → key_of hash o request ≡ some h.0
    → let w = run hash o s (step hash o now (ends i (responded r)) v) in
      (handlers h.0 w ≡ 0)
      × (begin hash o t request w.store
          ≡ (replays (replay h.0 (cached_response now h.0 r)), w.store))
replayed hash o now i h r v s t request x q k b l m =
    let c = cached_response now h.0 r in
    let e = now + seconds o.ttl_seconds in
    let f =
      run-IsCached h.0 c e hash o s (step hash o now (ends i (responded r)) v) b
        (finished-IsCached hash o now i h r v x q k) in
    (f.idle, begin_claims hash o t request _ h.0 m ∙ claim_hits h.0 c e t _ f.cached l)
