-- ===== src/Connections/Messages.antt =====
-- What the loop of `send_to_user` does.
use claude_library.Prelude.{
  ℕ, ◌+◌, ◌≡◌, inl, inr, refl, ap, String, Bool, true, false, Option, none, some, List, [], ◌∷◌,
  ◌++◌, arith, if◌then◌else◌, Bool-cases, Option-cases, length, length-append,
}
use claude_library.Prelude.Key.{string_key, nat_key, ◌=?◌}
use claude_library.Prelude.Dict.{Dict, lookup, lookup-erase}
use claude_library.Prelude.Sets.{elem_of}
use claude_library.Connections.Manager.{
  ConnectionManager, Frame, accepted, closed, refused, sent, disconnect, send_personal_message,
  send_each,
}
use claude_library.Connections.Invariant.{IsConsistent, disconnect-IsConsistent}

-- The sockets to which a message has been sent, in their order.
abbrev pub deliveries : List Frame → List ℕ
deliveries [] = []
deliveries (accepted w ∷ fs) = deliveries fs
deliveries (closed w ∷ fs) = deliveries fs
deliveries (refused w ∷ fs) = deliveries fs
deliveries (sent w message ∷ fs) = w ∷ deliveries fs

pub deliveries-append :
    (fs gs : List Frame) → deliveries (fs ++ gs) ≡ deliveries fs ++ deliveries gs
deliveries-append [] gs = refl
deliveries-append (accepted w ∷ fs) gs = deliveries-append fs gs
deliveries-append (closed w ∷ fs) gs = deliveries-append fs gs
deliveries-append (refused w ∷ fs) gs = deliveries-append fs gs
deliveries-append (sent w message ∷ fs) gs = ap (λ xs. w ∷ xs) (deliveries-append fs gs)

pub lookup-eq :
    {A : Type 0} (a b : String) (d : Dict String A) → (a =? b) ≡ true → lookup a d ≡ lookup b d
lookup-eq a b d h = ap (λ k. lookup k d) ((string_key.beq_iff a b).0 h)

pub disconnect_delivers : (c : String) (m : ConnectionManager) → deliveries (disconnect c m).1 ≡ []
unfolding disconnect
disconnect_delivers c m = ground arith

pub disconnect_active :
    (c x : String) (m : ConnectionManager)
    → lookup x (disconnect c m).0.active_connections
      ≡ (if c =? x then none else lookup x m.active_connections)
unfolding disconnect
disconnect_active c x m = lookup-erase c x m.active_connections

module _ (alive : ℕ → Bool) where
  -- A socket that is left after a message to it.
  abbrev pub survives : Option ℕ → Option ℕ
  survives none = none
  survives (some w) = if alive w then some w else none

  pub survives-survives : (o : Option ℕ) → survives (survives o) ≡ survives o
  survives-survives none = refl
  survives-survives (some w) = ground arith

  -- The sockets of some connections that can be reached.
  unfoldable pub reachable : Dict String ℕ → List String → List ℕ
  reachable d [] = []
  reachable d (c ∷ cs) =
      let rest = reachable d cs in elim (survives (lookup c d)) [ none ↦ rest | some w ↦ w ∷ rest ]

  reachable-eq :
      (d e : Dict String ℕ) (cs : List String)
      → ((c : String) → survives (lookup c d) ≡ survives (lookup c e))
      → reachable d cs ≡ reachable e cs
  unfolding reachable
  reachable-eq d e [] h = refl
  reachable-eq d e (c ∷ cs) h = ground (arith, h c, reachable-eq d e cs h)

  module _ (message : String) where
    -- What one message does to the connections.
    pub record IsSent (m n : ConnectionManager) (ids : List String) (count : ℕ)
        (frames : List Frame) : Type 0 where
      pub reached : deliveries frames ≡ reachable m.active_connections ids
      pub counted : count ≡ length (deliveries frames)
      pub left :
          (c : String)
          → lookup c n.active_connections ≡ (
              if elem_of c ids
              then survives (lookup c m.active_connections)
              else lookup c m.active_connections)
      pub consistent : IsConsistent m → IsConsistent n

    sent_or_dropped :
        (c : String) (m : ConnectionManager)
        → IsConsistent m
        → (o : Option ℕ)
        → IsConsistent
            (elim o as (λ x. Bool × ConnectionManager × List Frame) [
              | none ↦ (false, m, [])
              | some w ↦
                  if alive w
                  then (true, m, sent w message ∷ [])
                  else (false, (disconnect c m).0, (disconnect c m).1)
            ]).1
    sent_or_dropped c m v none = v
    sent_or_dropped c m v (some w) = elim (Bool-cases (alive w)) [
      | inl e ↦ rw e v
      | inr e ↦ rw e (disconnect-IsConsistent c m v)
    ]

    -- A message to one connection, and then to others.
    IsSent-cons :
        (c : String) (m n p : ConnectionManager) (ids : List String) (k l : ℕ) (f g : List Frame)
        → IsSent m n (c ∷ []) k f
        → IsSent n p ids l g
        → IsSent m p (c ∷ ids) (k + l) (f ++ g)
    unfolding reachable elem_of
    IsSent-cons c m n p ids k l f g v w =
        let same =
          reachable-eq n.active_connections m.active_connections ids
            (λ x. ground (arith, v.left x, survives-survives (lookup x m.active_connections))) in
        record {
          reached = ground (arith, deliveries-append f g, v.reached, w.reached, same);
          counted = ground (
            arith,
            deliveries-append f g,
            length-append (deliveries f) (deliveries g),
            v.counted,
            w.counted,
          );
          left = λ x.
              ground (arith, v.left x, w.left x, survives-survives (lookup x m.active_connections));
          consistent = λ x. w.consistent (v.consistent x);
        }

    pub send_personal_message-IsSent :
        (c : String) (m : ConnectionManager)
        → let (ok, n, frames) = send_personal_message alive message c m in
          IsSent m n (c ∷ []) (if ok then 1 else 0) frames
    unfolding send_personal_message reachable elem_of
    send_personal_message-IsSent c m = elim (Option-cases (lookup c m.active_connections)) [
      | inl e ↦ record {
        reached = ground (arith, e);
        counted = ground (arith, e);
        left = λ x. ground (arith, e, lookup-eq c x m.active_connections);
        consistent = λ v. sent_or_dropped c m v (lookup c m.active_connections);
      }
      | inr (w, e) ↦ record {
        reached = ground (arith, e, disconnect_delivers c m);
        counted = ground (arith, e, disconnect_delivers c m);
        left = λ x. ground (arith, e, lookup-eq c x m.active_connections, disconnect_active c x m);
        consistent = λ v. sent_or_dropped c m v (lookup c m.active_connections);
      }
    ]

    pub send_each-IsSent :
        (ids : List String) (m : ConnectionManager)
        → let (count, n, frames) = send_each alive message ids m in IsSent m n ids count frames
    unfolding send_each reachable elem_of
    send_each-IsSent [] m = record {
      reached = refl;
      counted = refl;
      left = λ c. refl;
      consistent = λ v. v;
    }
    send_each-IsSent (c ∷ ids) m =
        let r = send_personal_message-IsSent c m in
        IsSent-cons c m _ _ ids _ _ _ _ r
          (send_each-IsSent ids (send_personal_message alive message c m).1)
