-- ===== src/MemoryClient/Schedule.antt =====
-- Any sequence of operations of the client, each with the times and outcomes of its calls.
use claude_library.Prelude.{ℕ, String, ◌≢◌, Bool, Option, List, [], ◌∷◌}
use claude_library.MemoryBreaker.Calls.{Outcome}
use claude_library.MemoryClient.Fallback.{Item}
use claude_library.MemoryClient.State.{Payload, Failure, MemoryMcpClient}
use claude_library.MemoryClient.Client.{
  store, vector_search, get_task_history, health_check, reset_circuit_breaker,
}

pub data Event : Type 0 where
  stores : ℕ → ℕ → Outcome Unit Failure → Payload → Event
  searches :
      ℕ → ℕ → Outcome (List Item) Failure → String → Option String → Option String → ℕ → Event
  recalls :
      ℕ
      → ℕ
      → Outcome (Option Item) Failure
      → ℕ
      → ℕ
      → Outcome (List Item) Failure
      → String
      → Bool
      → Event
  checks : ℕ → ℕ → Outcome Bool Failure → Event
  resets : Event

-- The event does not store the task of the identifier.
abbrev pub IsOther : String → Event → Type 0
IsOther id (stores start now o p) = p.task_id ≢ id
IsOther id _ = Unit

module _ (dumps : Item → String) (loads : String → Item) (lower : String → String) where
  unfoldable pub apply : Event → MemoryMcpClient → MemoryMcpClient
  apply (stores start now o p) c = (store dumps loads lower start now o p c).1
  apply (searches start now o query project_id task_type limit) c =
      (vector_search dumps loads lower start now o query project_id task_type limit c).1
  apply (recalls start now o start_2 now_2 o_2 id related) c =
      (get_task_history dumps loads lower start now o start_2 now_2 o_2 id related c).1
  apply (checks start now o) c = (health_check start now o c).1
  apply resets c = reset_circuit_breaker c

  unfoldable pub run : List Event → MemoryMcpClient → MemoryMcpClient
  unfolding apply
  run [] c = c
  run (e ∷ es) c = run es (apply e c)
