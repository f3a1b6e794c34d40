-- ===== src/Connections/Delivery.antt =====
-- Who is reached by `send_to_user` and `broadcast`, and which connections are left after them.
use claude_library.Prelude.{
  ℕ, ◌≡◌, ◌≢◌, inl, inr, refl, ap, sym, ◌∙◌, String, Bool, true, false, none, some, List, [], ◌∷◌,
  ◌++◌, arith, if◌then◌else◌, filter, Bool-cases, Option-cases, length, length-append,
}
use claude_library.Prelude.Key.{string_key, nat_key, ◌=?◌, beq_refl}
use claude_library.Prelude.Dict.{Dict, keys, values, lookup, contains}
use claude_library.Prelude.Sets.{
  elem_of, occurs, IsDistinct, elem_of-occurs, IsDistinct-rest, IsDistinct-first,
}
use claude_library.Connections.Manager.{
  ConnectionManager, connections_of, disconnect, send_to_user, sweep, disconnect_each, broadcast,
  get_user_connections,
}
use claude_library.Connections.Invariant.{IsConsistent, disconnect-IsConsistent}
use claude_library.Connections.Messages.{
  deliveries, deliveries-append, disconnect_delivers, disconnect_active, survives, reachable,
  send_each-IsSent,
}

-- A socket that is reached belongs to one of the connections.
reachable_source :
    (alive : ℕ → Bool) (d : Dict String ℕ) (ids : List String) (w : ℕ)
    → elem_of w (reachable alive d ids) ≡ true
    → (c : String) × (elem_of c ids ≡ true) × (lookup c d ≡ some w)
unfolding reachable elem_of
reachable_source alive d [] w h = absurd (cc h)
reachable_source alive d (c ∷ ids) w h = elim (Option-cases (lookup c d)) [
  | inl e ↦
      let (x, m, q) = reachable_source alive d ids w (ground (arith, e, h)) in
      (x, ground (arith, m), q)
  | inr (v, e) ↦ elim (Bool-cases (alive v)) [
    | inl a ↦ elim (Bool-cases (v =? w)) [
      | inl q ↦ (c, ground (arith, beq_refl c), ground (arith, e, q, nat_key.beq_iff v w))
      | inr q ↦
          let (x, m, r) = reachable_source alive d ids w (ground (arith, e, a, q, h)) in
          (x, ground (arith, m), r)
    ]
    | inr a ↦
        let (x, m, r) = reachable_source alive d ids w (ground (arith, e, a, h)) in
        (x, ground (arith, m), r)
  ]
]

sweep_absent :
    (alive : ℕ → Bool) (message c : String) (d : Dict String ℕ)
    → contains c d ≡ false
    → elem_of c (sweep alive message d).1 ≡ false
unfolding sweep elem_of contains
sweep_absent alive message c [] h = refl
sweep_absent alive message c ((k, w) ∷ d) h = ground (arith, sweep_absent alive message c d)

contains-occurs : (c : String) (d : Dict String ℕ) → occurs c (keys d) ≡ 0 → contains c d ≡ false
unfolding occurs contains
contains-occurs c [] h = refl
contains-occurs c ((k, w) ∷ d) h = ground (arith, contains-occurs c d)

disconnect_each_lem :
    (ids : List String) (m : ConnectionManager)
    → IsConsistent m
    → let (n, frames) = disconnect_each ids m in
      (deliveries frames ≡ [])
      × ((c : String)
          → lookup c n.active_connections
            ≡ (if elem_of c ids then none else lookup c m.active_connections))
      × IsConsistent n
unfolding disconnect_each elem_of
disconnect_each_lem [] m v = (refl, λ c. refl, v)
disconnect_each_lem (x ∷ ids) m v =
    let (f, l, w) = disconnect_each_lem ids (disconnect x m).0 (disconnect-IsConsistent x m v) in
    (
      ground (
        arith,
        f,
        disconnect_delivers x m,
        deliveries-append (disconnect x m).1 (disconnect_each ids (disconnect x m).0).1,
      ),
      λ c. ground (arith, l c, disconnect_active x c m),
      w,
    )

module _ (alive : ℕ → Bool) (message : String) where
  sweep_lem :
      (d : Dict String ℕ)
      → IsDistinct (keys d)
      → let (count, disconnected, frames) = sweep alive message d in
        (deliveries frames ≡ filter alive (values d))
        × (count ≡ length (deliveries frames))
        × ((c : String)
            → (if elem_of c disconnected then none else lookup c d) ≡ survives alive (lookup c d))
  unfolding sweep elem_of lookup
  sweep_lem [] u = (refl, refl, λ c. refl)
  sweep_lem ((k, w) ∷ d) u =
      let (f, n, l) = sweep_lem d (IsDistinct-rest k (keys d) u) in
      let a =
        sweep_absent alive message k d (contains-occurs k d (IsDistinct-first k (keys d) u)) in
      (ground (arith, f), ground (arith, n), λ c. ground (arith, l c, a, string_key.beq_iff k c))

append-nil : (xs : List ℕ) → xs ++ [] ≡ xs
append-nil [] = refl
append-nil (x ∷ xs) = ap (λ ys. x ∷ ys) (append-nil xs)

-- In a consistent manager, a broadcast reaches every socket that is alive, once for each of its
-- connections, and counts them. The connections of the other sockets are gone after it, and nothing
-- else, and the manager is consistent.
pub broadcast_reaches :
    (alive : ℕ → Bool) (message : String) (m : ConnectionManager)
    → IsConsistent m
    → let (count, n, frames) = broadcast alive message m in
      (deliveries frames ≡ filter alive (values m.active_connections))
      × (count ≡ length (deliveries frames))
      × ((c : String)
          → lookup c n.active_connections ≡ survives alive (lookup c m.active_connections))
      × IsConsistent n
unfolding broadcast
broadcast_reaches alive message m v =
    let (f, k, l) = sweep_lem alive message m.active_connections v.once in
    let (count, disconnected, frames) = sweep alive message m.active_connections in
    let (g, q, w) = disconnect_each_lem disconnected m v in
    let e = deliveries-append frames (disconnect_each disconnected m).1 in
    let nothing =
      length-append (deliveries frames) (deliveries (disconnect_each disconnected m).1) in
    (
      ground (arith, e, f, g, append-nil (filter alive (values m.active_connections))),
      ground (arith, e, k, g, nothing),
      λ c. ground (arith, q c, l c),
      w,
    )

-- In a consistent manager, and in any order of the set, a message to a user reaches the live sockets
-- of the user's connections, and counts them. It reaches no socket that is not one of the user's.
-- The user's connections whose sockets are not alive are gone after it, those of everyone else are
-- as they were, and the manager is consistent.
pub send_to_user_reaches :
    (alive : ℕ → Bool) (message : String) (arrange : List String → List String) (user : String)
    (m : ConnectionManager)
    → ((k : String) (xs : List String) → occurs k (arrange xs) ≡ occurs k xs)
    → IsConsistent m
    → let (count, n, frames) = send_to_user alive message arrange user m in
      (deliveries frames
        ≡ reachable alive m.active_connections (arrange (get_user_connections user m)))
      × (count ≡ length (deliveries frames))
      × ((w : ℕ)
          → elem_of w (deliveries frames) ≡ true
          → (c : String) × (lookup c m.connection_users ≡ some user)
            × (lookup c m.active_connections ≡ some w))
      × ((c : String)
          → lookup c m.connection_users ≡ some user
          → lookup c n.active_connections ≡ survives alive (lookup c m.active_connections))
      × ((c : String)
          → lookup c m.connection_users ≢ some user
          → lookup c n.active_connections ≡ lookup c m.active_connections)
      × IsConsistent n
unfolding send_to_user get_user_connections
send_to_user_reaches alive message arrange user m h v =
    let ids = arrange (connections_of user m.user_connections) in
    let r = send_each-IsSent alive message ids m in
    let members = λ (c : String). ground_members c in
    (
      r.reached,
      r.counted,
      λ w q.
          (let (c, o, f) =
              reachable_source alive m.active_connections ids w
                (ap (elem_of w) (sym r.reached) ∙ q) in
            (c, (v.listed c user).0 (sym (members c) ∙ o), f)),
      λ c u. ground (arith, r.left c, members c, v.listed c user, u),
      λ c u. ground (arith, r.left c, members c, v.listed c user, u),
      r.consistent v,
    )
  where
    ground_members :
        (c : String)
        → elem_of c (arrange (connections_of user m.user_connections))
          ≡ elem_of c (connections_of user m.user_connections)
    ground_members c = ground (
      arith,
      h c (connections_of user m.user_connections),
      elem_of-occurs c (connections_of user m.user_connections),
      elem_of-occurs c (arrange (connections_of user m.user_connections)),
    )
