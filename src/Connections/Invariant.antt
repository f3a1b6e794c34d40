-- ===== src/Connections/Invariant.antt =====
-- The three dicts of `ConnectionManager` say the same of every connection.
use claude_library.Prelude.{
  ℕ, ◌≡◌, ◌≢◌, ◌↔◌, ◌⊎◌, inl, inr, refl, String, true, false, none, some, [], arith, if◌then◌else◌,
  Option-cases,
}
use claude_library.Prelude.Key.{string_key, ◌=?◌}
use claude_library.Prelude.Dict.{keys, lookup, contains, lookup-insert, lookup-erase}
use claude_library.Prelude.Sets.{elem_of, occurs, IsDistinct, occurs-eq}
use claude_library.Connections.Manager.{
  ConnectionManager, init, connections_of, add, register, leave, disconnect,
}
use claude_library.Connections.Dicts.{
  elem_of-add, add_nonempty, connections_of-insert, contains-insert, contains-erase, occurs-insert,
  occurs-absent, occurs-erase, elem_of-leave, leave_nonempty,
}

pub record IsConsistent (m : ConnectionManager) : Type 0 where
  -- A connection has a socket if and only if it has a user.
  pub same : (c : String) → contains c m.active_connections ≡ contains c m.connection_users
  -- A connection is in the set of its user, and in no other.
  pub listed :
      (c u : String)
      → (elem_of c (connections_of u m.user_connections) ≡ true)
        ↔ (lookup c m.connection_users ≡ some u)
  -- A user without a connection has no set.
  pub nonempty : (u : String) → lookup u m.user_connections ≢ some []
  pub named : (c : String) → lookup c m.connection_users ≢ some ""
  pub once : IsDistinct (keys m.active_connections)

pub init-IsConsistent : IsConsistent init
unfolding init contains lookup connections_of elem_of occurs
init-IsConsistent = record {
  same = λ c. refl;
  listed = λ c u. ground arith;
  nonempty = λ u. ground arith;
  named = λ c. ground arith;
  once = λ c. omega arith;
}

-- A registered connection joins the set of its user.
pub registered_sets :
    (c u x t : String) (w : ℕ) (m : ConnectionManager)
    → elem_of x (connections_of t (register c u w m).user_connections) ≡ (
        if u =? t
        then (if c =? x then true else elem_of x (connections_of t m.user_connections))
        else elem_of x (connections_of t m.user_connections))
unfolding register
registered_sets c u x t w m =
    let users = m.user_connections in
    ground (
      arith,
      connections_of-insert u t (add c (connections_of u users)) users,
      elem_of-add c x (connections_of u users),
      string_key.beq_iff u t,
    )

-- A connection may be registered where its identifier is free or is that of the same user.
pub register-IsConsistent :
    (c u : String) (w : ℕ) (m : ConnectionManager)
    → u ≢ ""
    → (lookup c m.connection_users ≡ none) ⊎ (lookup c m.connection_users ≡ some u)
    → IsConsistent m
    → IsConsistent (register c u w m)
unfolding register
register-IsConsistent c u w m p f v =
    let users = m.user_connections in
    let joined = add c (connections_of u users) in
    record {
      same = λ x. ground (
        arith,
        v.same x,
        contains-insert c x w m.active_connections,
        contains-insert c x u m.connection_users,
      );
      listed = λ x t. ground (
        arith,
        v.listed x t,
        v.listed x u,
        v.listed c t,
        f,
        connections_of-insert u t joined users,
        elem_of-add c x (connections_of u users),
        lookup-insert c x u m.connection_users,
        string_key.beq_iff c x,
        string_key.beq_iff u t,
      );
      nonempty = λ t. ground (
        arith,
        v.nonempty t,
        lookup-insert u t joined users,
        add_nonempty c (connections_of u users),
      );
      named = λ x. ground (arith, v.named x, p, lookup-insert c x u m.connection_users);
      once = λ x. ground (
        arith,
        v.once x,
        occurs-insert c x w m.active_connections,
        occurs-absent c m.active_connections,
        occurs-eq c x (keys m.active_connections),
      );
    }

-- A connection leaves the set of its user, and every other set stays as it is.
pub disconnected_sets :
    (c x t : String) (m : ConnectionManager)
    → IsConsistent m
    → elem_of x (connections_of t (disconnect c m).0.user_connections)
      ≡ (if c =? x then false else elem_of x (connections_of t m.user_connections))
unfolding disconnect leave
disconnected_sets c x t m v = elim (Option-cases (lookup c m.connection_users)) [
  | inl e ↦ ground (arith, e, v.listed x t, string_key.beq_iff c x)
  | inr (u, e) ↦ ground (
    arith,
    e,
    v.listed x t,
    v.listed c u,
    v.named c,
    string_key.beq_iff c x,
    string_key.beq_iff u t,
    λ (p : u ≢ ""). elem_of-leave c u x t m.user_connections p,
  )
]

pub disconnect-IsConsistent :
    (c : String) (m : ConnectionManager) → IsConsistent m → IsConsistent (disconnect c m).0
unfolding disconnect
disconnect-IsConsistent c m v = record {
  same = λ x. ground (
    arith,
    v.same x,
    contains-erase c x m.active_connections,
    contains-erase c x m.connection_users,
  );
  listed = λ x t.
      ground
        (arith, v.listed x t, disconnected_sets c x t m v, lookup-erase c x m.connection_users);
  nonempty =
      λ t. leave_nonempty c t (lookup c m.connection_users) m.user_connections (v.nonempty t);
  named = λ x. ground (arith, v.named x, lookup-erase c x m.connection_users);
  once = λ x. omega (arith, v.once x, occurs-erase c x m.active_connections);
}
