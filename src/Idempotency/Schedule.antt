-- ===== src/Idempotency/Schedule.antt =====
-- Requests that many tasks send through the `idempotent` wrapper, interleaved in any way: each step is
-- the part of one request before or after its handler, or a cleanup of the store.
use claude_library.Prelude.{
  ℕ, zero, suc, ◌+◌, ◌<◌, String, ◌≡◌, refl, arith, Option, none, some, List, [], ◌∷◌, All,
  get_elem?, count_if,
}
use claude_library.Prelude.Key.{string_key, ◌=?◌}
use claude_library.Idempotency.Store.{
  InMemoryIdempotencyStore, empty_store, seconds, default_lock_timeout, cleanup_expired,
}
use claude_library.Idempotency.Wrapper.{
  Settings, Request, Decision, passes, runs, Outcome, key_of, claim, begin, finish,
}

-- The store and the handlers that run under a lock: their keys and when they began.
pub record Service : Type 0 where
  pub store : InMemoryIdempotencyStore
  pub running : List (String × ℕ)

abbrev pub new_service : Service
new_service = record { store = empty_store; running = [] }

-- A request arrives, the handler at an index ends, or the store is cleaned.
pub data Event : Type 0 where
  arrives : Request → Event
  ends : ℕ → Outcome → Event
  cleans : Event

abbrev pub remove_at {ℓ} : {A : Type ℓ} → ℕ → List A → List A
remove_at i [] = []
remove_at zero (x ∷ xs) = xs
remove_at (suc i) (x ∷ xs) = x ∷ remove_at i xs

abbrev pub start_if_runs : ℕ → Decision → List (String × ℕ) → List (String × ℕ)
start_if_runs now (runs key) rs = (key, now) ∷ rs
start_if_runs now _ rs = rs

module _ (hash : String → String) (o : Settings) where
  unfoldable pub step : ℕ → Event → Service → Service
  unfolding begin finish cleanup_expired
  step now (arrives r) v =
      let (d, s) = begin hash o now r v.store in
      record { store = s; running = start_if_runs now d v.running }
  step now (ends i outcome) v = elim (get_elem? v.running i) [
    | none ↦ v
    | some (key, start) ↦ record {
      store = finish now o key outcome v.store;
      running = remove_at i v.running;
    }
  ]
  step now cleans v = record v { store = (cleanup_expired now v.store).1 }

  unfoldable pub run : List (ℕ × Event) → Service → Service
  unfolding step
  run [] v = v
  run ((now, e) ∷ s) v = run s (step now e v)

  -- At every step, each handler that runs began less than the lock's timeout ago.
  unfoldable pub IsPrompt : List (ℕ × Event) → Service → Type 0
  unfolding step
  IsPrompt [] v = Unit
  IsPrompt ((now, e) ∷ s) v =
      All (λ h. now < h.1 + seconds default_lock_timeout) v.running × IsPrompt s (step now e v)

-- How many handlers run for a key.
abbrev pub handlers : String → Service → ℕ
handlers key v = count_if (λ h. h.0 =? key) v.running

-- What holds of a request without a key, and of a claim of any key, holds of each request.
pub begin_cases {ℓ} :
    (hash : String → String) (o : Settings) (now : ℕ) (r : Request) (s : InMemoryIdempotencyStore)
    (P : Decision × InMemoryIdempotencyStore → Type ℓ)
    → P (passes, s)
    → ((key : String) → key_of hash o r ≡ some key → P (claim now key s))
    → P (begin hash o now r s)
unfolding begin
begin_cases hash o now r s P p c = go (key_of hash o r) refl
  where
    go :
        (k : Option String)
        → key_of hash o r ≡ k
        → P (elim k [ none ↦ (passes, s) | some key ↦ claim now key s ])
    go none e = p
    go (some key) e = c key e

-- What holds of the service, and of the service after the end of any handler that runs, holds after
-- each end.
pub ends_cases {ℓ} :
    (hash : String → String) (o : Settings) (now i : ℕ) (outcome : Outcome) (v : Service)
    (P : Service → Type ℓ)
    → P v
    → ((h : String × ℕ)
        → get_elem? v.running i ≡ some h
        → P (record { store = finish now o h.0 outcome v.store; running = remove_at i v.running }))
    → P (step hash o now (ends i outcome) v)
unfolding step
ends_cases hash o now i outcome v P p c = go (get_elem? v.running i) refl
  where
    go :
        (g : Option (String × ℕ))
        → get_elem? v.running i ≡ g
        → P (elim g [
          | none ↦ v
          | some (key, start) ↦ record {
            store = finish now o key outcome v.store;
            running = remove_at i v.running;
          }
        ])
    go none e = p
    go (some (key, start)) e = c (key, start) e

pub begin_claims :
    (hash : String → String) (o : Settings) (now : ℕ) (r : Request) (s : InMemoryIdempotencyStore)
    (key : String)
    → key_of hash o r ≡ some key
    → begin hash o now r s ≡ claim now key s
unfolding begin
begin_claims hash o now r s key e = ground (arith, e)

pub ends_at :
    (hash : String → String) (o : Settings) (now i : ℕ) (outcome : Outcome) (v : Service)
    (h : String × ℕ)
    → get_elem? v.running i ≡ some h
    → step hash o now (ends i outcome) v
      ≡ record { store = finish now o h.0 outcome v.store; running = remove_at i v.running }
unfolding step
ends_at hash o now i outcome v h e = ground (arith, e)
