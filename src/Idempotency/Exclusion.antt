-- ===== src/Idempotency/Exclusion.antt =====
-- Which handlers run at once: the lock of a key against the handlers that began under it.
use claude_library.Prelude.{ℕ, ◌≤◌, String, ◌≡◌, sym, List, [], ◌∷◌, arith, All, inl, inr, true}
use claude_library.Prelude.Key.{string_key, ◌=?◌, beq_refl}
use claude_library.Idempotency.Wrapper.{Settings, claim}
use claude_library.Idempotency.Schedule.{
  Service, new_service, Event, arrives, ends, cleans, remove_at, start_if_runs, step, run, IsPrompt,
  handlers, begin_cases, ends_cases,
}
use claude_library.Idempotency.Locks.{
  IsLocked, IsInTime, count_of, free-count_of, IsLocked-clean, All-remove_at, count_of-remove_at,
  claim_locks, IsLocked-finish, IsLocked-claim,
}

-- Each handler that runs holds the lock of its key, and no two run for the same key.
pub record IsExclusive (v : Service) : Type 0 where
  pub locked : All (IsLocked v.store.locks) v.running
  pub single : (key : String) → handlers key v ≤ 1

module _ (hash : String → String) (o : Settings) (now : ℕ) (v : Service) where
  claimed-IsExclusive :
      (key : String)
      → All (IsInTime now) v.running
      → IsExclusive v
      → let (d, s) = claim now key v.store in
        IsExclusive (record { store = s; running = start_if_runs now d v.running })
  claimed-IsExclusive key t x = elim (claim_locks now key v.store v.running) [
    | inl (e, l, f) ↦
        let s' = (claim now key v.store).1 in
        let c = free-count_of now key v.store.locks v.running t x.locked f in
        record {
          locked = rw e (IsLocked-claim now key v.store.locks s'.locks v.running l c x.locked);
          single =
              λ k. rw e (ground (arith, c, x.single k, string_key.beq_iff key k, same_count k c));
        }
    | inr (e, l) ↦ record { locked = rw (e, l) x.locked; single = λ k. rw e (x.single k) }
  ]
    where
      same_count :
          (k : String) → count_of key v.running ≡ 0 → (key =? k) ≡ true → count_of k v.running ≡ 0
      same_count k c q = rw (sym ((string_key.beq_iff key k).0 q)) c

  step-IsExclusive :
      (e : Event) → All (IsInTime now) v.running → IsExclusive v → IsExclusive (step hash o now e v)
  unfolding step
  step-IsExclusive (arrives r) t x =
      begin_cases hash o now r v.store
        (λ b. IsExclusive (record { store = b.1; running = start_if_runs now b.0 v.running })) x
        (λ key e. claimed-IsExclusive key t x)
  step-IsExclusive (ends i outcome) t x = ends_cases hash o now i outcome v IsExclusive x (λ h e.
      record {
        locked =
            IsLocked-finish now o h.0 outcome v.store (remove_at i v.running)
              (ground (arith, count_of-remove_at h.0 i v.running h e, x.single h.0, beq_refl h.0))
              (All-remove_at (IsLocked v.store.locks) i v.running x.locked);
        single = λ k. ground (arith, count_of-remove_at k i v.running h e, x.single k);
      })
  step-IsExclusive cleans t x = record {
    locked = IsLocked-clean now v.store.locks v.running t x.locked;
    single = x.single;
  }

pub run-IsExclusive :
    (hash : String → String) (o : Settings) (s : List (ℕ × Event)) (v : Service)
    → IsPrompt hash o s v
    → IsExclusive v
    → IsExclusive (run hash o s v)
unfolding run IsPrompt
run-IsExclusive hash o [] v p x = x
run-IsExclusive hash o ((now, e) ∷ s) v p x =
    run-IsExclusive hash o s (step hash o now e v) p.1 (step-IsExclusive hash o now v e p.0 x)

-- As long as every handler ends before the timeout of its lock, however the requests of many tasks,
-- the ends of their handlers and the cleanups are interleaved, no two handlers run for one key at the
-- same time, and each that runs holds the lock of its key.
pub handlers_exclude :
    (hash : String → String) (o : Settings) (s : List (ℕ × Event))
    → IsPrompt hash o s new_service
    → IsExclusive (run hash o s new_service)
handlers_exclude hash o s p =
    run-IsExclusive hash o s new_service p (record { locked = tt; single = λ k. omega arith })
