-- ===== src/Idempotency/Tests.antt =====
-- Requests at concrete values: two for one payment, one of them while the first is in progress, and one
-- for another payment.
use claude_library.Prelude.{ℕ, String, ◌≡◌, refl, arith, some, none, List, [], ◌∷◌}
use claude_library.Prelude.Key.{string_key}
use claude_library.Prelude.Dict.{lookup, insert}
use claude_library.Idempotency.Wrapper.{
  default_settings, Request, Response, responded, replays, begin, replay, cached_response,
}
use claude_library.Idempotency.Schedule.{
  new_service, Event, arrives, ends, cleans, step, run, IsPrompt, handlers,
}
use claude_library.Idempotency.Exclusion.{IsExclusive, handlers_exclude}
use claude_library.Idempotency.Replay.{replayed}

abbrev identity : String → String
identity s = s

abbrev pay : String → Request
pay key = record { method = "POST"; key_header = some key; body = "{}" }

abbrev paid : Response
paid = record { status_code = 200; body = some "paid"; headers = [] }

abbrev broken : Response
broken = record { status_code = 503; body = none; headers = [] }

abbrev rush : List (ℕ × Event)
rush =
    (0, arrives (pay "a"))
    ∷ (1000000, arrives (pay "a"))
    ∷ (2000000, arrives (pay "b"))
    ∷ (3000000, cleans)
    ∷ []

rush-IsPrompt : IsPrompt identity default_settings rush new_service
unfolding IsPrompt begin lookup insert
rush-IsPrompt = omega arith

run-rush : (run identity default_settings rush new_service).running ≡ ("b", 2000000) ∷ ("a", 0) ∷ []
unfolding run begin lookup insert
run-rush = refl

handlers_exclude_example : IsExclusive (run identity default_settings rush new_service)
handlers_exclude_example = handlers_exclude identity default_settings rush rush-IsPrompt

replayed_example :
    let w = run identity default_settings ((5000000, arrives (pay "b")) ∷ (6000000, cleans) ∷ []) (
      step identity default_settings 4000000
        (ends 1 (responded paid))
        (run identity default_settings rush new_service)) in
    (handlers "a" w ≡ 0)
    × (begin identity default_settings 7000000 (pay "a") w.store
        ≡ (replays (replay "a" (cached_response 4000000 "a" paid)), w.store))
unfolding run begin lookup insert
replayed_example =
    replayed identity default_settings 4000000 1 ("a", 0) paid
      (run identity default_settings rush new_service)
      ((5000000, arrives (pay "b")) ∷ (6000000, cleans) ∷ []) 7000000 (pay "a")
      handlers_exclude_example refl refl (omega arith) (omega arith) refl
