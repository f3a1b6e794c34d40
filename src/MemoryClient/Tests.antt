-- ===== src/MemoryClient/Tests.antt =====
-- The memory client on concrete inputs, and its theorems at inputs that meet their hypotheses.
use claude_library.Prelude.{
  ℕ, String, ◌≡◌, refl, true, Option, none, some, List, [], ◌∷◌, arith, filter, take,
}
use claude_library.Prelude.Int.{pos}
use claude_library.Prelude.Key.{string_key}
use claude_library.Prelude.Dict.{values}
use claude_library.MemoryBreaker.Calls.{
  init, call, admit, finish, on_failure, on_success, check_state_transition, Outcome,
}
use claude_library.MemoryClient.Fallback.{Item, InMemoryFallback, matches}
use claude_library.MemoryClient.State.{
  Payload, to_item, Failure, connection_error, answered, MemoryMcpClient, create,
}
use claude_library.MemoryClient.Client.{store, vector_search, get_task_history, health_check}
use claude_library.MemoryClient.Schedule.{Event, checks, searches, apply, run}
use claude_library.MemoryClient.Degraded.{task_of, degraded_store_found}
use claude_library.MemoryClient.Ranking.{search_degrades}

-- A text for each of two items, and the item of each text.
abbrev task : Payload
task = record {
  content = "Implemented auth flow";
  task_id = "AUTH-001";
  project_id = "my-project";
  intent = "implementation";
  rest = "";
}

abbrev same_text : String → String
same_text t = t

abbrev client : MemoryMcpClient
client = create 1 30 (init none)

abbrev down : Outcome Unit Failure
down = Outcome.raised (connection_error "refused")

-- A JSON text of the one task that is used.
abbrev dumps : Item → String
dumps item = "{}"

abbrev loads : String → Item
loads text = to_item task

abbrev between : List Event
between =
    searches 20 30 (Outcome.returned []) "auth" none none 5
    ∷ checks 40 50 (Outcome.returned true)
    ∷ []

abbrev lost : Outcome (Option Item) Failure
lost = Outcome.raised (connection_error "refused")

-- A day later, when the entry of the cache has expired.
degraded_store_found_example :
    let stored = store dumps loads same_text 0 10 down task client in
    let later = run dumps loads same_text between stored.1 in
    task_of
      (get_task_history dumps loads same_text 86400000000 86400000010 lost 0 0
        (Outcome.returned [])
        "AUTH-001"
        true
        later).0
    ≡ some (to_item task)
unfolding store run apply vector_search health_check call admit finish on_failure on_success init
    create check_state_transition
degraded_store_found_example =
    degraded_store_found dumps loads same_text 0 10 down task client between 86400000000 86400000010
      lost 0 0 (Outcome.returned []) true (record { reads_back = refl; writes = refl }) refl
      (tt, (tt, tt)) refl

abbrev hit : ℕ → Item
hit n = record (to_item task) { similarity_score = some (pos n) }

abbrev hits : List Item
hits = hit 1 ∷ hit 3 ∷ hit 2 ∷ []

abbrev found : Outcome (List Item) Failure
found = Outcome.returned hits

abbrev stored : String → Item
stored text = record (to_item task) { content = some text }

abbrev kept : InMemoryFallback
kept =
    ("A", stored "auth") ∷ ("B", stored "logs") ∷ ("C", stored "oauth") ∷ ("D", stored "auth") ∷ []

abbrev alone : MemoryMcpClient
alone = record client { fallback = kept }

abbrev refused : Outcome (List Item) Failure
refused = Outcome.raised (connection_error "refused")

-- The fallback has three tasks about "auth".
fallback-auth :
    take 2 (filter (matches same_text "auth" none none) (values kept))
    ≡ stored "auth" ∷ stored "oauth" ∷ []
fallback-auth = refl

search_degrades_example :
    (vector_search dumps loads same_text 0 10 refused "auth" none none 2 alone).0
    ≡ answered (take 2 (filter (matches same_text "auth" none none) (values kept)))
unfolding call admit finish on_failure init check_state_transition create
search_degrades_example =
    search_degrades dumps loads same_text 0 10 refused "auth" none none 2 alone (omega arith) refl
