-- ===== src/Idempotency/Retry.antt =====
-- What follows the end of a handler that fails, or that outlives the lock of its key.
use claude_library.Prelude.{
  ℕ, ◌+◌, ◌≤◌, String, ◌≡◌, ◌∙◌, refl, ap, none, some, arith, false, inl, inr,
}
use claude_library.Prelude.Key.{string_key, beq_refl}
use claude_library.Prelude.Dict.{lookup, lookup-insert}
use claude_library.Idempotency.Store.{
  InMemoryIdempotencyStore, seconds, default_lock_timeout, release_lock, lock_key,
}
use claude_library.Idempotency.Wrapper.{
  Settings, Response, runs, Outcome, responded, raised, claim, finish, is_cacheable,
}
use claude_library.Idempotency.Locks.{IsFree, claim_free, release_lock_frees}

finish_fails :
    (o : Settings) (now : ℕ) (key : String) (x : Outcome) (s : InMemoryIdempotencyStore)
    → ((r : Response) → x ≡ responded r → is_cacheable r ≡ false)
    → finish now o key x s ≡ release_lock key s
unfolding finish
finish_fails o now key raised s n = refl
finish_fails o now key (responded r) s n = ground (arith, n r refl)

-- A response of a status of 500 or more, or below 200, and an exception leave the cache as it was, and
-- the next request with the key runs the handler again.
pub failed_retried :
    (o : Settings) (now t : ℕ) (key : String) (x : Outcome) (s : InMemoryIdempotencyStore)
    → ((r : Response) → x ≡ responded r → is_cacheable r ≡ false)
    → lookup key s.store ≡ none
    → let s' = finish now o key x s in (s'.store ≡ s.store) × ((claim t key s').0 ≡ runs key)
failed_retried o now t key x s n h =
    let e = finish_fails o now key x s n in
    let r = release_lock_frees key s in
    (
      ap (λ w. w.store) e ∙ r.1,
      rw e (
          ap (λ d. d.0)
            (claim_free t key (release_lock key s) (ap (lookup key) r.1 ∙ h) (inl r.0))),
    )

claim_takes :
    (now : ℕ) (key : String) (s : InMemoryIdempotencyStore)
    → lookup key s.store ≡ none
    → IsFree now key s.locks
    → let (d, s') = claim now key s in
      (d ≡ runs key)
      × (s'.store ≡ s.store)
      × (lookup (lock_key key) s'.locks ≡ some (now + seconds default_lock_timeout))
claim_takes now key s h f =
    let e = now + seconds default_lock_timeout in
    let c = claim_free now key s h f in
    (
      ap (λ x. x.0) c,
      ap (λ x. x.1.store) c,
      ap (λ x. lookup (lock_key key) x.1.locks) c
          ∙ ground (
            arith,
            lookup-insert (lock_key key) (lock_key key) e s.locks,
            beq_refl (lock_key key),
          ),
    )

raised_not_responded : (r : Response) → raised ≡ responded r → is_cacheable r ≡ false
raised_not_responded r q = ground (arith, q)

-- A handler that outlives its lock loses its key. With no response cached and no lock held, a second
-- request that comes when the timeout is over runs the handler beside the first. When the first then
-- raises, it gives up the lock of the second, and a third request runs the handler too, at any time.
pub overrun_runs_again :
    (o : Settings) (t t' t'' t''' : ℕ) (key : String) (s : InMemoryIdempotencyStore)
    → lookup key s.store ≡ none
    → lookup (lock_key key) s.locks ≡ none
    → t + seconds default_lock_timeout ≤ t'
    → let (first, s') = claim t key s in
      let (second, s'') = claim t' key s' in
      let (third, s''') = claim t''' key (finish t'' o key raised s'') in
      (first ≡ runs key) × (second ≡ runs key) × (third ≡ runs key)
overrun_runs_again o t t' t'' t''' key s h n l =
    let a = claim_takes t key s h (inl n) in
    let s' = (claim t key s).1 in
    let b = claim_takes t' key s' (ap (lookup key) a.1 ∙ h) (inr (_, a.2, l)) in
    let s'' = (claim t' key s').1 in
    let c =
      failed_retried o t'' t''' key raised s'' raised_not_responded
        (ap (lookup key) b.1 ∙ ap (lookup key) a.1 ∙ h) in
    (a.0, b.0, c.1)
