-- ===== src/Connections/Tests.antt =====
-- A manager with two users at concrete values.
use claude_library.Prelude.{
  ℕ, ◌≡◌, ◌≢◌, refl, inl, String, Bool, true, false, none, some, List, [], ◌∷◌, if◌then◌else◌,
  length,
}
use claude_library.Prelude.Key.{string_key, nat_key, ◌=?◌}
use claude_library.Prelude.Dict.{lookup, insert}
use claude_library.Prelude.Sets.{elem_of}
use claude_library.Connections.Manager.{
  ConnectionManager, Request, init, user_of, id_of, connect, register, disconnect, send_to_user,
  broadcast, get_user_id, get_user_connections,
}
use claude_library.Connections.Invariant.{IsConsistent}
use claude_library.Connections.Messages.{deliveries, survives, reachable}
use claude_library.Connections.Delivery.{broadcast_reaches, send_to_user_reaches}
use claude_library.Connections.Schedule.{
  Operation, connects, disconnects, sends, IsFair, MayRun, run, run-IsConsistent,
}
use claude_library.Connections.Reuse.{disconnect-connect}

abbrev request : ℕ → String → String → Request
request w id user = record {
  websocket = w;
  token = none;
  authenticator = none;
  connection_id = some id;
  user_id = some user;
  anonymous = "anonymous:0f";
  uuid = "9b";
}

-- The third socket fails at the end.
abbrev operations : List Operation
operations =
    connects (request 1 "c1" "ana")
    ∷ connects (request 2 "c2" "ana")
    ∷ connects (request 3 "c3" "ben")
    ∷ connects (request 4 "c4" "ben")
    ∷ disconnects "c2"
    ∷ sends (λ w. w =? 3) "bye" "c4"
    ∷ []

differ : (a b : String) → (a =? b) ≡ false → a ≢ b
differ a b h e = cc (h, (string_key.beq_iff a b).1 e)

fair :
    (w : ℕ) (id user : String) (m : ConnectionManager)
    → lookup (id_of (request w id user)) m.connection_users ≡ none
    → IsFair (request w id user) m
fair w id user m h = record { anonymous = differ "anonymous:0f" "" refl; own = λ u e. inl h }

operations_fair : MayRun operations init
unfolding run init id_of connect lookup insert
operations_fair = (
  fair 1 "c1" "ana" after_0 refl,
  (
    fair 2 "c2" "ana" after_1 refl,
    (fair 3 "c3" "ben" after_2 refl, (fair 4 "c4" "ben" after_3 refl, (tt, (tt, tt)))),
  ),
)
  where
    after_0 : ConnectionManager
    after_0 = init

    after_1 : ConnectionManager
    after_1 = register "c1" "ana" 1 after_0

    after_2 : ConnectionManager
    after_2 = register "c2" "ana" 2 after_1

    after_3 : ConnectionManager
    after_3 = register "c3" "ben" 3 after_2

run-IsConsistent_example : IsConsistent (run operations init)
run-IsConsistent_example = run-IsConsistent operations operations_fair

-- After the operations, "ana" is on the socket 1 and "ben" on the sockets 3 and 4.
abbrev manager : ConnectionManager
manager = record {
  active_connections = ("c1", 1) ∷ ("c3", 3) ∷ ("c4", 4) ∷ [];
  user_connections = ("ana", "c1" ∷ []) ∷ ("ben", "c3" ∷ "c4" ∷ []) ∷ [];
  connection_users = ("c1", "ana") ∷ ("c3", "ben") ∷ ("c4", "ben") ∷ [];
}

abbrev three : List Operation
three =
    connects (request 1 "c1" "ana")
    ∷ connects (request 3 "c3" "ben")
    ∷ connects (request 4 "c4" "ben")
    ∷ []

manager-eq : run three init ≡ manager
unfolding run init connect insert elem_of lookup
manager-eq = refl

manager-IsConsistent : IsConsistent manager
unfolding run init lookup register insert id_of connect elem_of
manager-IsConsistent = run-IsConsistent three (
  fair 1 "c1" "ana" init refl,
  (fair 3 "c3" "ben" after_1 refl, (fair 4 "c4" "ben" after_2 refl, tt)),
)
  where
    after_1 : ConnectionManager
    after_1 = register "c1" "ana" 1 init

    after_2 : ConnectionManager
    after_2 = register "c3" "ben" 3 after_1

-- The socket 3 has failed.
abbrev but_3 : ℕ → Bool
but_3 w = if w =? 3 then false else true

abbrev identity : List String → List String
identity xs = xs

broadcast_reaches_example :
    let (count, n, frames) = broadcast but_3 "hello" manager in
    (deliveries frames ≡ 1 ∷ 4 ∷ [])
    × (count ≡ length (deliveries frames))
    × ((c : String)
        → lookup c n.active_connections ≡ survives but_3 (lookup c manager.active_connections))
    × IsConsistent n
broadcast_reaches_example = broadcast_reaches but_3 "hello" manager manager-IsConsistent

send_to_user_reaches_example :
    let (count, n, frames) = send_to_user but_3 "hello" identity "ben" manager in
    (deliveries frames ≡ 4 ∷ [])
    × (count ≡ length (deliveries frames))
    × ((w : ℕ)
        → elem_of w (deliveries frames) ≡ true
        → (c : String) × (lookup c manager.connection_users ≡ some "ben")
          × (lookup c manager.active_connections ≡ some w))
    × ((c : String)
        → lookup c manager.connection_users ≡ some "ben"
        → lookup c n.active_connections ≡ survives but_3 (lookup c manager.active_connections))
    × ((c : String)
        → lookup c manager.connection_users ≢ some "ben"
        → lookup c n.active_connections ≡ lookup c manager.active_connections)
    × IsConsistent n
unfolding reachable get_user_connections lookup
send_to_user_reaches_example =
    send_to_user_reaches but_3 "hello" identity "ben" manager (λ k xs. refl) manager-IsConsistent

disconnect-connect_example :
    let n = (disconnect "c2" (connect (request 2 "c2" "ana") manager).1).0 in
    (lookup "c1" n.active_connections ≡ lookup "c1" manager.active_connections)
    × (get_user_id "c1" n ≡ get_user_id "c1" manager)
    × ((t : String)
        → elem_of "c1" (get_user_connections t n) ≡ elem_of "c1" (get_user_connections t manager))
unfolding user_of id_of get_user_id lookup
disconnect-connect_example =
    disconnect-connect (request 2 "c2" "ana") "ana" manager (differ "anonymous:0f" "" refl)
      manager-IsConsistent refl refl "c1"
