-- ===== src/Connections/Reuse.antt =====
-- Connections that come and go, and identifiers that are used again.
use mathlib.Core.Path.{subst}
use claude_library.Prelude.{
  ℕ, ◌≡◌, ◌≢◌, inl, ap, sym, ◌∙◌, String, Bool, true, none, some, List, [], ◌∷◌, arith,
}
use claude_library.Prelude.Key.{string_key, nat_key, beq_refl}
use claude_library.Prelude.Dict.{Dict, lookup, lookup-insert, lookup-erase, contains-lookup}
use claude_library.Prelude.Sets.{elem_of, occurs, elem_of-occurs}
use claude_library.Connections.Manager.{
  ConnectionManager, Request, user_of, id_of, register, connections_of, connect, disconnect,
  send_to_user, get_user_id, get_user_connections,
}
use claude_library.Connections.Invariant.{
  IsConsistent, register-IsConsistent, disconnected_sets, registered_sets,
}
use claude_library.Connections.Messages.{deliveries, reachable, send_each-IsSent}
use claude_library.Connections.Schedule.{user_of_named}

connect-eq :
    (r : Request) (u : String) (m : ConnectionManager)
    → user_of r ≡ some u
    → (connect r m).1 ≡ register (id_of r) u r.websocket m
unfolding connect
connect-eq r u m e = ground (arith, e)

reached_source :
    (alive : ℕ → Bool) (d : Dict String ℕ) (ids : List String) (c : String) (w : ℕ)
    → elem_of c ids ≡ true
    → lookup c d ≡ some w
    → alive w ≡ true
    → elem_of w (reachable alive d ids) ≡ true
unfolding reachable elem_of
reached_source alive d [] c w m e a = absurd (cc m)
reached_source alive d (x ∷ ids) c w m e a =
    ground (arith, m, e, a, string_key.beq_iff x c, beq_refl w, reached_source alive d ids c w)

disconnect-register :
    (i u : String) (w : ℕ) (m : ConnectionManager)
    → u ≢ ""
    → IsConsistent m
    → lookup i m.connection_users ≡ none
    → let n = (disconnect i (register i u w m)).0 in
      (c : String)
      → (lookup c n.active_connections ≡ lookup c m.active_connections)
        × (lookup c n.connection_users ≡ lookup c m.connection_users)
        × ((t : String)
            → elem_of c (connections_of t n.user_connections)
              ≡ elem_of c (connections_of t m.user_connections))
unfolding disconnect register
disconnect-register i u w m p v f c =
    let joined = register i u w m in
    let q = register-IsConsistent i u w m p (inl f) v in
    let k = string_key.beq_iff i c in
    (
      ground (
        arith,
        lookup-erase i c joined.active_connections,
        lookup-insert i c w m.active_connections,
        v.same i,
        f,
        k,
        contains-lookup i m.active_connections,
        contains-lookup i m.connection_users,
      ),
      ground (
        arith,
        lookup-erase i c joined.connection_users,
        lookup-insert i c u m.connection_users,
        f,
        k,
      ),
      λ t. ground (
        arith,
        disconnected_sets i c t joined q,
        registered_sets i u c t w m,
        v.listed c t,
        f,
        k,
      ),
    )

-- In a consistent manager, a connection of an accepted request under a free identifier that is
-- closed again leaves no trace: every connection has the socket and the user that it had, and every
-- user the connections. The name drawn for an anonymous user is supposed not to be empty.
pub disconnect-connect :
    (r : Request) (u : String) (m : ConnectionManager)
    → r.anonymous ≢ ""
    → IsConsistent m
    → user_of r ≡ some u
    → get_user_id (id_of r) m ≡ none
    → let n = (disconnect (id_of r) (connect r m).1).0 in
      (c : String)
      → (lookup c n.active_connections ≡ lookup c m.active_connections)
        × (get_user_id c n ≡ get_user_id c m)
        × ((t : String)
            → elem_of c (get_user_connections t n) ≡ elem_of c (get_user_connections t m))
unfolding get_user_id get_user_connections
disconnect-connect r u m p v e f =
    subst
      (λ k.
        let n = (disconnect (id_of r) k).0 in
        (c : String)
        → (lookup c n.active_connections ≡ lookup c m.active_connections)
          × (get_user_id c n ≡ get_user_id c m)
          × ((t : String)
              → elem_of c (get_user_connections t n) ≡ elem_of c (get_user_connections t m)))
      (sym (connect-eq r u m e))
      (disconnect-register (id_of r) u r.websocket m (user_of_named r u p e) v f)

-- What `send_to_user` delivers where a connection of the user's set has a live socket.
delivered :
    (alive : ℕ → Bool) (message : String) (arrange : List String → List String) (i user : String)
    (w : ℕ) (m : ConnectionManager)
    → ((k : String) (xs : List String) → occurs k (arrange xs) ≡ occurs k xs)
    → elem_of i (connections_of user m.user_connections) ≡ true
    → lookup i m.active_connections ≡ some w
    → alive w ≡ true
    → elem_of w (deliveries (send_to_user alive message arrange user m).2) ≡ true
unfolding send_to_user
delivered alive message arrange i user w m h o e a =
    let ids = arrange (connections_of user m.user_connections) in
    ap (elem_of w) (send_each-IsSent alive message ids m).reached
    ∙ reached_source alive m.active_connections ids i w
        (ground (
          arith,
          o,
          h i (connections_of user m.user_connections),
          elem_of-occurs i (connections_of user m.user_connections),
          elem_of-occurs i ids,
        ))
        e a

-- In a consistent manager, where an accepted request with a live socket takes the identifier of
-- another user's connection, the identifier passes to the new user, and a message to the other user,
-- in any order of the set, reaches the socket of the new one.
pub reused_id_misdelivers :
    (alive : ℕ → Bool) (message : String) (arrange : List String → List String) (r : Request)
    (old new : String) (m : ConnectionManager)
    → ((k : String) (xs : List String) → occurs k (arrange xs) ≡ occurs k xs)
    → IsConsistent m
    → get_user_id (id_of r) m ≡ some old
    → user_of r ≡ some new
    → old ≢ new
    → alive r.websocket ≡ true
    → let n = (connect r m).1 in
      (get_user_id (id_of r) n ≡ some new)
      × (elem_of r.websocket (deliveries (send_to_user alive message arrange old n).2) ≡ true)
unfolding get_user_id register
reused_id_misdelivers alive message arrange r old new m h v e f p a =
    let i = id_of r in
    subst
      (λ n.
        (get_user_id i n ≡ some new)
        × (elem_of r.websocket (deliveries (send_to_user alive message arrange old n).2) ≡ true))
      (sym (connect-eq r new m f))
      (
        ground (arith, lookup-insert i i new m.connection_users, beq_refl i),
        delivered alive message arrange i old r.websocket (register i new r.websocket m) h
            (ground
              (arith, registered_sets i new i old r.websocket m, v.listed i old, e, beq_refl i))
            (ground (arith, lookup-insert i i r.websocket m.active_connections, beq_refl i)) a,
      )
