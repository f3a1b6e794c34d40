-- ===== src/Connections/Schedule.antt =====
-- Any sequence of operations on a manager.
use claude_library.Prelude.{
  ℕ, ◌≡◌, ◌≢◌, ◌⊎◌, refl, String, Bool, Option, none, some, List, [], ◌∷◌, arith, if◌then◌else◌,
}
use claude_library.Prelude.Key.{string_key, ◌=?◌}
use claude_library.Prelude.Dict.{lookup}
use claude_library.Connections.Manager.{
  ConnectionManager, Request, Frame, refused, accepted, init, authenticate, user_of, id_of,
  connections_of, register, connect, disconnect, send_personal_message, send_to_user, broadcast,
}
use claude_library.Connections.Invariant.{
  IsConsistent, init-IsConsistent, register-IsConsistent, disconnect-IsConsistent,
}
use claude_library.Connections.Messages.{send_personal_message-IsSent, send_each-IsSent}
use claude_library.Connections.Delivery.{broadcast_reaches}

pub data Operation : Type 0 where
  connects : Request → Operation
  disconnects : String → Operation
  sends : (ℕ → Bool) → String → String → Operation
  sends_to_user : (ℕ → Bool) → String → (List String → List String) → String → Operation
  broadcasts : (ℕ → Bool) → String → Operation

unfoldable pub apply : Operation → ConnectionManager → ConnectionManager
apply (connects r) m = (connect r m).1
apply (disconnects c) m = (disconnect c m).0
apply (sends alive message c) m = (send_personal_message alive message c m).1
apply (sends_to_user alive message arrange u) m = (send_to_user alive message arrange u m).1
apply (broadcasts alive message) m = (broadcast alive message m).1

unfoldable pub run : List Operation → ConnectionManager → ConnectionManager
unfolding apply
run [] m = m
run (o ∷ os) m = run os (apply o m)

-- A request does not take the identifier of another user's connection, and the name that is drawn for
-- an anonymous user is not empty.
pub record IsFair (r : Request) (m : ConnectionManager) : Type 0 where
  pub anonymous : r.anonymous ≢ ""
  pub own :
      (u : String)
      → user_of r ≡ some u
      → (lookup (id_of r) m.connection_users ≡ none)
        ⊎ (lookup (id_of r) m.connection_users ≡ some u)

abbrev pub MayApply : Operation → ConnectionManager → Type 0
MayApply (connects r) m = IsFair r m
MayApply (disconnects c) m = Unit
MayApply (sends alive message c) m = Unit
MayApply (sends_to_user alive message arrange u) m = Unit
MayApply (broadcasts alive message) m = Unit

abbrev pub MayRun : List Operation → ConnectionManager → Type 0
MayRun [] m = Unit
MayRun (o ∷ os) m = MayApply o m × MayRun os (apply o m)

pub user_of_named : (r : Request) (u : String) → r.anonymous ≢ "" → user_of r ≡ some u → u ≢ ""
unfolding user_of
user_of_named r u p e q = go (authenticate r) r.user_id e
  where
    go :
        (o : Option (Option String)) (i : Option String)
        → elim o as (λ x. Option String) [
          | none ↦ elim i as (λ x. Option String) [
            | none ↦ some r.anonymous
            | some u ↦ if u =? "" then some r.anonymous else some u
          ]
          | some x ↦ elim x as (λ x. Option String) [
            | none ↦ none
            | some u ↦ if u =? "" then none else some u
          ]
        ]
          ≡ some u
        → ⊥
    go none none h = ground (arith, p, q, h)
    go none (some v) h = ground (arith, p, q, h, string_key.beq_iff v "")
    go (some none) i h = ground (arith, h)
    go (some (some v)) i h = ground (arith, q, h, string_key.beq_iff v "")

pub connect-IsConsistent :
    (r : Request) (m : ConnectionManager)
    → IsFair r m
    → IsConsistent m
    → IsConsistent (connect r m).1
unfolding connect
connect-IsConsistent r m f v = go (user_of r) refl
  where
    go :
        (o : Option String)
        → user_of r ≡ o
        → IsConsistent
            (elim o as (λ x. Option (String × String) × ConnectionManager × List Frame) [
              | none ↦ (none, m, refused r.websocket ∷ [])
              | some user_id ↦ (
                some (id_of r, user_id),
                register (id_of r) user_id r.websocket m,
                accepted r.websocket ∷ [],
              )
            ]).1
    go none e = v
    go (some u) e =
        register-IsConsistent (id_of r) u r.websocket m (user_of_named r u f.anonymous e)
          (f.own u e) v

apply-IsConsistent :
    (o : Operation) (m : ConnectionManager)
    → MayApply o m
    → IsConsistent m
    → IsConsistent (apply o m)
unfolding apply send_to_user
apply-IsConsistent (connects r) m f v = connect-IsConsistent r m f v
apply-IsConsistent (disconnects c) m f v = disconnect-IsConsistent c m v
apply-IsConsistent (sends alive message c) m f v =
    (send_personal_message-IsSent alive message c m).consistent v
apply-IsConsistent (sends_to_user alive message arrange u) m f v =
    (send_each-IsSent alive message (arrange (connections_of u m.user_connections)) m).consistent v
apply-IsConsistent (broadcasts alive message) m f v = (broadcast_reaches alive message m v).3

run_from-IsConsistent :
    (os : List Operation) (m : ConnectionManager)
    → MayRun os m
    → IsConsistent m
    → IsConsistent (run os m)
unfolding run
run_from-IsConsistent [] m f v = v
run_from-IsConsistent (o ∷ os) m f v =
    run_from-IsConsistent os (apply o m) f.1 (apply-IsConsistent o m f.0 v)

-- From a new manager, whatever connections, disconnections and messages follow one another, and
-- whichever sockets fail, as long as no request takes the identifier of another user's connection
-- and no name drawn for an anonymous user is empty: a connection has a socket if and only if it has
-- a user, it is in the set of that user and in no other, no user without a connection is kept, none
-- has an empty name, and no connection stands twice.
pub run-IsConsistent : (os : List Operation) → MayRun os init → IsConsistent (run os init)
run-IsConsistent os f = run_from-IsConsistent os init f init-IsConsistent
