-- ===== src/Idempotency/Locks.antt =====
-- What the parts of a request do to the locks, and to the handlers that hold them.
use mathlib.Core.Path.{subst}
use text.Mathlib.TextLemmas.{append_cancel_left}
use claude_library.Prelude.{
  ℕ, zero, suc, ◌+◌, ◌≤◌, ◌<◌, String, ◌≡◌, refl, ap, sym, ◌⊎◌, ◌↔◌, none, some, List, [], ◌∷◌,
  arith, not, ltb, All, filter, get_elem?, count_if, if◌then◌else◌, inl, inr, Bool, true, false,
  Bool-cases, Option-cases,
}
use claude_library.Prelude.Key.{string_key, ◌=?◌, beq_refl}
use claude_library.Prelude.Dict.{
  Dict, lookup, insert, erase, contains, lookup-insert, lookup-erase, contains-lookup,
  lookup-filter,
}
use claude_library.Idempotency.Store.{
  InMemoryIdempotencyStore, seconds, default_lock_timeout, lock_key, get, acquire_lock,
  release_lock,
}
use claude_library.Idempotency.Wrapper.{Settings, runs, Outcome, claim, finish}
use claude_library.Idempotency.Schedule.{remove_at, start_if_runs}

lock_key_iff : (j k : String) → ((lock_key j =? lock_key k) ≡ true) ↔ ((j =? k) ≡ true)
lock_key_iff j k = (
  (λ h.
      (string_key.beq_iff j k).1
        (append_cancel_left "lock:" j k ((string_key.beq_iff (lock_key j) (lock_key k)).0 h))),
  (λ h.
      (string_key.beq_iff (lock_key j) (lock_key k)).1
        (ap lock_key ((string_key.beq_iff j k).0 h))),
)

-- The lock of a handler stands, and expires when the timeout after its begin is over.
abbrev pub IsLocked : Dict String ℕ → String × ℕ → Type 0
IsLocked locks h = lookup (lock_key h.0) locks ≡ some (h.1 + seconds default_lock_timeout)

abbrev pub IsInTime : ℕ → String × ℕ → Type 0
IsInTime now h = now < h.1 + seconds default_lock_timeout

abbrev pub count_of : String → List (String × ℕ) → ℕ
count_of key rs = count_if (λ h. h.0 =? key) rs

-- The lock of a key is absent or has expired.
abbrev pub IsFree : ℕ → String → Dict String ℕ → Type 0
IsFree now key locks =
    (lookup (lock_key key) locks ≡ none)
    ⊎ ((e : ℕ) × (lookup (lock_key key) locks ≡ some e) × (e ≤ now))

module _ (now : ℕ) (key : String) (locks : Dict String ℕ) where
  same_lock :
      (h : String × ℕ)
      → (h.0 =? key) ≡ true
      → lookup (lock_key h.0) locks ≡ lookup (lock_key key) locks
  same_lock h q = ap (λ k. lookup (lock_key k) locks) ((string_key.beq_iff h.0 key).0 q)

  in_time_not_free :
      (h : String × ℕ)
      → IsInTime now h
      → IsLocked locks h
      → IsFree now key locks
      → (h.0 =? key) ≡ false
  in_time_not_free h t l f = ground (arith, same_lock h)

  pub free-count_of :
      (rs : List (String × ℕ))
      → All (IsInTime now) rs
      → All (IsLocked locks) rs
      → IsFree now key locks
      → count_of key rs ≡ 0
  free-count_of [] t l f = refl
  free-count_of (h ∷ rs) t l f =
      ground (arith, in_time_not_free h t.0 l.0 f, free-count_of rs t.1 l.1 f)

  IsLocked-insert :
      (x : ℕ) (rs : List (String × ℕ))
      → count_of key rs ≡ 0
      → All (IsLocked locks) rs
      → All (IsLocked (insert (lock_key key) x locks)) rs
  IsLocked-insert x [] c l = tt
  IsLocked-insert x (h ∷ rs) c l = ground (
    arith,
    lookup-insert (lock_key key) (lock_key h.0) x locks,
    lock_key_iff key h.0,
    string_key.beq_iff key h.0,
    string_key.beq_iff h.0 key,
    IsLocked-insert x rs,
  )

  IsLocked-erase :
      (rs : List (String × ℕ))
      → count_of key rs ≡ 0
      → All (IsLocked locks) rs
      → All (IsLocked (erase (lock_key key) locks)) rs
  IsLocked-erase [] c l = tt
  IsLocked-erase (h ∷ rs) c l = ground (
    arith,
    lookup-erase (lock_key key) (lock_key h.0) locks,
    lock_key_iff key h.0,
    string_key.beq_iff key h.0,
    string_key.beq_iff h.0 key,
    IsLocked-erase rs,
  )

pub IsLocked-clean :
    (now : ℕ) (locks : Dict String ℕ) (rs : List (String × ℕ))
    → All (IsInTime now) rs
    → All (IsLocked locks) rs
    → All (IsLocked (filter (λ l. not (ltb l.1 now)) locks)) rs
IsLocked-clean now locks [] t l = tt
IsLocked-clean now locks (h ∷ rs) t l = (
  lookup-filter (λ e. not (ltb e now)) (lock_key h.0) _ locks l.0 (ground (arith, t.0)),
  IsLocked-clean now locks rs t.1 l.1,
)

pub All-remove_at {ℓ κ} :
    {A : Type ℓ} (P : A → Type κ) (i : ℕ) (xs : List A) → All P xs → All P (remove_at i xs)
All-remove_at P i [] h = h
All-remove_at P zero (x ∷ xs) h = h.1
All-remove_at P (suc i) (x ∷ xs) h = (h.0, All-remove_at P i xs h.1)

pub count_of-remove_at :
    (key : String) (i : ℕ) (rs : List (String × ℕ)) (h : String × ℕ)
    → get_elem? rs i ≡ some h
    → count_of key rs ≡ (if h.0 =? key then 1 else 0) + count_of key (remove_at i rs)
count_of-remove_at key i [] h e = ground arith
count_of-remove_at key zero (x ∷ rs) h e = ground arith
count_of-remove_at key (suc i) (x ∷ rs) h e = ground (arith, count_of-remove_at key i rs h e)

acquire_lock-cases :
    (now : ℕ) (key : String) (timeout : ℕ) (s : InMemoryIdempotencyStore) (locks : Dict String ℕ)
    → s.locks ≡ locks
    → let (acquired, s') = acquire_lock now key timeout s in
      ((acquired ≡ true)
        × (s'.locks ≡ insert (lock_key key) (now + seconds timeout) locks)
        × IsFree now key locks)
      ⊎ ((acquired ≡ false) × (s'.locks ≡ locks))
unfolding acquire_lock
acquire_lock-cases now key timeout s locks q = elim (Option-cases (lookup (lock_key key) locks)) [
  | inl n ↦ inl (ground (arith, n, q), ground (arith, n, q), inl n)
  | inr (e, n) ↦ elim (Bool-cases (ltb now e)) [
    | inl t ↦ inr (ground (arith, n, t, q), ground (arith, n, t, q))
    | inr f ↦ inl (ground (arith, n, f, q), ground (arith, n, f, q), inr (e, n, ground (arith, f)))
  ]
]

get_locks :
    (now : ℕ) (key : String) (s : InMemoryIdempotencyStore) → (get now key s).1.locks ≡ s.locks
unfolding get
get_locks now key s = ground arith

-- What the claim of a key does to the locks and the handlers.
pub claim_locks :
    (now : ℕ) (key : String) (s : InMemoryIdempotencyStore) (rs : List (String × ℕ))
    → let (d, s') = claim now key s in
      ((start_if_runs now d rs ≡ (key, now) ∷ rs)
        × (s'.locks ≡ insert (lock_key key) (now + seconds default_lock_timeout) s.locks)
        × IsFree now key s.locks)
      ⊎ ((start_if_runs now d rs ≡ rs) × (s'.locks ≡ s.locks))
unfolding claim
claim_locks now key s rs = elim (Option-cases (get now key s).0) [
  | inl n ↦
      elim (acquire_lock-cases now key default_lock_timeout (get now key s).1 s.locks
        (get_locks now key s)) [
          | inl (a, l, f) ↦ inl (ground (arith, n, a), ground (arith, n, a, l), f)
          | inr (a, l) ↦ inr (ground (arith, n, a), ground (arith, n, a, l))
        ]
  | inr (c, n) ↦ inr (ground (arith, n), ground (arith, n, get_locks now key s))
]

finish_locks :
    (now : ℕ) (o : Settings) (key : String) (x : Outcome) (s : InMemoryIdempotencyStore)
    → (finish now o key x s).locks
      ≡ (if contains (lock_key key) s.locks then erase (lock_key key) s.locks else s.locks)
unfolding finish
finish_locks now o key x s = ground arith

pub claim_free :
    (now : ℕ) (key : String) (s : InMemoryIdempotencyStore)
    → lookup key s.store ≡ none
    → IsFree now key s.locks
    → claim now key s ≡ (
      runs key,
      record s { locks = insert (lock_key key) (now + seconds default_lock_timeout) s.locks },
    )
unfolding claim get acquire_lock
claim_free now key s h (inl n) = ground (arith, h, n)
claim_free now key s h (inr (e, n, l)) = ground (arith, h, n)

pub release_lock_frees :
    (key : String) (s : InMemoryIdempotencyStore)
    → (lookup (lock_key key) (release_lock key s).locks ≡ none)
      × ((release_lock key s).store ≡ s.store)
unfolding release_lock
release_lock_frees key s =
    let k = lock_key key in
    ground (arith, contains-lookup k s.locks, lookup-erase k k s.locks, beq_refl k)

pub IsLocked-finish :
    (now : ℕ) (o : Settings) (key : String) (x : Outcome) (s : InMemoryIdempotencyStore)
    (rs : List (String × ℕ))
    → count_of key rs ≡ 0
    → All (IsLocked s.locks) rs
    → All (IsLocked (finish now o key x s).locks) rs
IsLocked-finish now o key x s rs c l =
    rw (finish_locks now o key x s) (go (contains (lock_key key) s.locks))
  where
    go : (b : Bool) → All (IsLocked (if b then erase (lock_key key) s.locks else s.locks)) rs
    go true = IsLocked-erase now key s.locks rs c l
    go false = l

-- The locks after the claim of a key for which no handler ran.
pub IsLocked-claim :
    (now : ℕ) (key : String) (locks locks' : Dict String ℕ) (rs : List (String × ℕ))
    → locks' ≡ insert (lock_key key) (now + seconds default_lock_timeout) locks
    → count_of key rs ≡ 0
    → All (IsLocked locks) rs
    → All (IsLocked locks') ((key, now) ∷ rs)
IsLocked-claim now key locks locks' rs q c l =
    let t = now + seconds default_lock_timeout in
    subst (λ x. All (IsLocked x) ((key, now) ∷ rs)) (sym q)
      (
        ground
            (arith, lookup-insert (lock_key key) (lock_key key) t locks, beq_refl (lock_key key)),
        IsLocked-insert now key locks t rs c l,
      )
