-- ===== src/Connections/Manager.antt =====
-- `ConnectionManager` without Redis. A socket is known by a number; `alive` says of which sockets
-- `send_json` returns in an operation. A set of connections is a list without repetitions, and the
-- order in which `list(connection_ids)` visits it is the parameter `arrange`.
use claude_library.Prelude.{
  ℕ, ◌+◌, String, Bool, true, false, Option, none, some, List, [], ◌∷◌, ◌++◌, if◌then◌else◌, length,
}
use claude_library.Prelude.Key.{string_key, ◌=?◌}
use claude_library.Prelude.Dict.{Dict, lookup, insert, erase}
use claude_library.Prelude.Sets.{elem_of}

pub record ConnectionManager : Type 0 where
  pub active_connections : Dict String ℕ
  pub user_connections : Dict String (List String)
  pub connection_users : Dict String String

unfoldable pub init : ConnectionManager
init = record { active_connections = []; user_connections = []; connection_users = [] }

-- What an operation does to the sockets.
pub data Frame : Type 0 where
  accepted closed refused : ℕ → Frame
  sent : ℕ → String → Frame

-- The optional arguments of `connect`, and the identifiers that it draws.
pub record Request : Type 0 where
  pub websocket : ℕ
  pub token : Option String
  pub authenticator : Option (String → Option String)
  pub connection_id : Option String
  pub user_id : Option String
  pub anonymous : String
  pub uuid : String

-- `token and authenticator`: none where the request is not authenticated, or else what it gives.
unfoldable pub authenticate : Request → Option (Option String)
authenticate r = elim r.token [
  | none ↦ none
  | some t ↦ elim r.authenticator [ none ↦ none | some a ↦ if t =? "" then none else some (a t) ]
]

-- The user of a request; none where the authentication fails.
unfoldable pub user_of : Request → Option String
unfolding authenticate
user_of r = elim (authenticate r) [
  | none ↦ elim r.user_id [
    | none ↦ some r.anonymous
    | some u ↦ if u =? "" then some r.anonymous else some u
  ]
  | some none ↦ none
  | some (some u) ↦ if u =? "" then none else some u
]

unfoldable pub id_of : Request → String
id_of r = elim r.connection_id [ none ↦ r.uuid | some c ↦ if c =? "" then r.uuid else c ]

-- `self._user_connections.get(user_id, set())`
unfoldable pub connections_of : String → Dict String (List String) → List String
connections_of u d = elim (lookup u d) [ none ↦ [] | some cs ↦ cs ]

unfoldable pub add : String → List String → List String
add c cs = if elem_of c cs then cs else cs ++ c ∷ []

unfoldable pub discard : String → List String → List String
discard c [] = []
discard c (x ∷ cs) = let rest = discard c cs in if x =? c then rest else x ∷ rest

unfoldable pub register : String → String → ℕ → ConnectionManager → ConnectionManager
unfolding connections_of add
register connection_id user_id websocket m = record {
  active_connections = insert connection_id websocket m.active_connections;
  connection_users = insert connection_id user_id m.connection_users;
  user_connections =
      insert user_id (add connection_id (connections_of user_id m.user_connections))
        m.user_connections;
}

-- The connection and the user; none is the error of a failed authentication.
unfoldable pub connect :
    Request → ConnectionManager → Option (String × String) × ConnectionManager × List Frame
unfolding user_of id_of register
connect r m = elim (user_of r) [
  | none ↦ (none, m, refused r.websocket ∷ [])
  | some user_id ↦
      (some (id_of r, user_id), register (id_of r) user_id r.websocket m, accepted r.websocket ∷ [])
]

-- What is left of a user's set: an empty set goes.
unfoldable pub put_back :
    String → List String → Dict String (List String) → Dict String (List String)
put_back user_id [] d = erase user_id d
put_back user_id (x ∷ cs) d = insert user_id (x ∷ cs) d

-- The users after a connection has gone.
unfoldable pub leave :
    String → Option String → Dict String (List String) → Dict String (List String)
unfolding discard put_back
leave connection_id none d = d
leave connection_id (some user_id) d = if user_id =? "" then d else elim (lookup user_id d) [
  | none ↦ d
  | some cs ↦ put_back user_id (discard connection_id cs) d
]

unfoldable pub disconnect : String → ConnectionManager → ConnectionManager × List Frame
unfolding leave
disconnect connection_id m = (
  record {
    active_connections = erase connection_id m.active_connections;
    connection_users = erase connection_id m.connection_users;
    user_connections =
        leave connection_id (lookup connection_id m.connection_users) m.user_connections;
  },
  elim (lookup connection_id m.active_connections) [ none ↦ [] | some w ↦ closed w ∷ [] ],
)

-- `for connection_id in disconnected`
unfoldable pub disconnect_each : List String → ConnectionManager → ConnectionManager × List Frame
unfolding disconnect
disconnect_each [] m = (m, [])
disconnect_each (connection_id ∷ ids) m =
    let (n, frames) = disconnect connection_id m in
    let (p, more) = disconnect_each ids n in (p, frames ++ more)

module _ (alive : ℕ → Bool) (message : String) where
  unfoldable pub send_personal_message :
      String → ConnectionManager → Bool × ConnectionManager × List Frame
  unfolding disconnect
  send_personal_message connection_id m = elim (lookup connection_id m.active_connections) [
    | none ↦ (false, m, [])
    | some w ↦
        if alive w
        then (true, m, sent w message ∷ [])
        else (let (n, frames) = disconnect connection_id m in (false, n, frames))
  ]

  unfoldable pub send_each : List String → ConnectionManager → ℕ × ConnectionManager × List Frame
  unfolding send_personal_message
  send_each [] m = (0, m, [])
  send_each (connection_id ∷ ids) m =
      let (ok, n, frames) = send_personal_message connection_id m in
      let (count, p, more) = send_each ids n in ((if ok then 1 else 0) + count, p, frames ++ more)

  unfoldable pub send_to_user :
      (List String → List String) → String → ConnectionManager → ℕ × ConnectionManager × List Frame
  unfolding send_each connections_of
  send_to_user arrange user_id m = send_each (arrange (connections_of user_id m.user_connections)) m

  -- The loop over `list(self._active_connections.items())`: the count, the connections that failed.
  unfoldable pub sweep : Dict String ℕ → ℕ × List String × List Frame
  sweep [] = (0, [], [])
  sweep ((connection_id, w) ∷ d) =
      let (count, disconnected, frames) = sweep d in
      if alive w
      then (count + 1, disconnected, sent w message ∷ frames)
      else (count, connection_id ∷ disconnected, frames)

  unfoldable pub broadcast : ConnectionManager → ℕ × ConnectionManager × List Frame
  unfolding sweep disconnect_each
  broadcast m =
      let (count, disconnected, frames) = sweep m.active_connections in
      let (n, more) = disconnect_each disconnected m in (count, n, frames ++ more)

unfoldable pub get_user_id : String → ConnectionManager → Option String
get_user_id connection_id m = lookup connection_id m.connection_users

unfoldable pub get_user_connections : String → ConnectionManager → List String
unfolding connections_of
get_user_connections user_id m = connections_of user_id m.user_connections

unfoldable pub connection_count : ConnectionManager → ℕ
connection_count m = length m.active_connections

unfoldable pub user_count : ConnectionManager → ℕ
user_count m = length m.user_connections
