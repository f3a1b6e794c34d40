-- ===== src/Breaker/Manager/Status.antt =====
-- The status of all breakers together.
use claude_library.Prelude.{
  ℕ, ◌+◌, String, ◌≡◌, ◌≢◌, ◌↔◌, refl, sym, ap, ◌∙◌, All, true, false, List, [], ◌∷◌, arith, length,
  count_if,
}
use claude_library.Prelude.Dict.{values, keys}
use claude_library.Breaker.State.{closed, opened, half_open, CircuitBreaker}
use claude_library.Breaker.Calls.{force_close, reset}
use claude_library.Breaker.Manager.{
  CircuitBreakerManager, is_in, get_system_status, get_open_breakers, any_open, shutdown_all,
  reset_all,
}

count_states :
    (bs : List CircuitBreaker)
    → count_if (is_in opened) bs + count_if (is_in half_open) bs + count_if (is_in closed) bs
      ≡ length bs
count_states [] = refl
count_states (b ∷ bs) = ground (arith, count_states bs)

-- The number of closed breakers, which the code finds by subtraction, is the number of breakers whose
-- state is closed.
status_counts :
    (m : CircuitBreakerManager)
    → (get_system_status m).closed_breakers ≡ count_if (is_in closed) (values m)
unfolding get_system_status
status_counts m = omega (arith, count_states (values m))

length-open :
    (m : CircuitBreakerManager) → length (get_open_breakers m) ≡ count_if (is_in opened) (values m)
unfolding get_open_breakers
length-open [] = refl
length-open ((name, b) ∷ m) = ground (arith, length-open m)

any_open_count :
    (m : CircuitBreakerManager) → (any_open m ≡ true) ↔ (count_if (is_in opened) (values m) ≢ 0)
unfolding any_open
any_open_count [] = ground arith
any_open_count ((name, b) ∷ m) = ground (arith, any_open_count m)

no_names : (xs : List String) → length xs ≡ 0 → xs ≡ []
no_names [] h = refl
no_names (x ∷ xs) h = absurd (omega arith)

-- The three views of the open breakers agree: the list of names is as long as the count, and
-- `any_open` is true exactly when the list is not empty.
open_views_agree :
    (m : CircuitBreakerManager)
    → (length (get_open_breakers m) ≡ (get_system_status m).open_breakers)
      × ((any_open m ≡ true) ↔ (get_open_breakers m ≢ []))
unfolding get_system_status
open_views_agree m = (
  length-open m,
  (
    λ a e. (any_open_count m).0 a (sym (length-open m) ∙ ap length e),
    λ ne. (any_open_count m).1 (λ e. ne (no_names _ (length-open m ∙ e))),
  ),
)

state-force_close : (now : ℕ) (b : CircuitBreaker) → (force_close now b).0.state ≡ closed
unfolding force_close
state-force_close now b = ground arith

-- What is left when every breaker has been closed.
abbrev pub AllClosed : CircuitBreakerManager → Type 0
AllClosed m = All (λ b. b.state ≡ closed) (values m)

closed-shutdown_all :
    (now : ℕ) (m : CircuitBreakerManager)
    → AllClosed (shutdown_all now m).0 × (keys (shutdown_all now m).0 ≡ keys m)
unfolding shutdown_all
closed-shutdown_all now [] = (tt, refl)
closed-shutdown_all now ((name, b) ∷ m) =
    let h = closed-shutdown_all now m in ((state-force_close now b, h.0), ap (λ ks. name ∷ ks) h.1)

closed-reset_all :
    (now : ℕ) (m : CircuitBreakerManager)
    → AllClosed (reset_all now m) × (keys (reset_all now m) ≡ keys m)
unfolding reset_all reset
closed-reset_all now [] = (tt, refl)
closed-reset_all now ((name, b) ∷ m) =
    let h = closed-reset_all now m in ((refl, h.0), ap (λ ks. name ∷ ks) h.1)

none_open : (m : CircuitBreakerManager) → AllClosed m → any_open m ≡ false
unfolding any_open
none_open [] h = refl
none_open ((name, b) ∷ m) h = ground (arith, none_open m h.1)

-- A shutdown and a reset of all breakers both keep the names and leave every breaker closed.
closes_all :
    (now : ℕ) (m : CircuitBreakerManager)
    → ((keys (shutdown_all now m).0 ≡ keys m) × (any_open (shutdown_all now m).0 ≡ false))
      × (AllClosed (shutdown_all now m).0)
      × ((keys (reset_all now m) ≡ keys m) × (any_open (reset_all now m) ≡ false))
      × (AllClosed (reset_all now m))
closes_all now m =
    let s = closed-shutdown_all now m in
    let r = closed-reset_all now m in ((s.1, none_open _ s.0), s.0, (r.1, none_open _ r.0), r.0)
