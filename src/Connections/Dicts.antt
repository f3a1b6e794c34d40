-- ===== src/Connections/Dicts.antt =====
-- The dicts of `ConnectionManager` after one change of one of them.
use claude_library.Prelude.{
  ◌+◌, ◌≤◌, ◌≡◌, ◌≢◌, inl, inr, refl, String, true, false, Option, none, some, List, [], ◌∷◌, arith,
  if◌then◌else◌, Option-cases,
}
use claude_library.Prelude.Key.{string_key, ◌=?◌}
use claude_library.Prelude.Dict.{
  Dict, keys, lookup, insert, erase, contains, lookup-insert, lookup-erase, contains-lookup,
}
use claude_library.Prelude.Sets.{elem_of, elem_of-append, elem_of-eq, occurs}
use claude_library.Connections.Manager.{connections_of, add, discard, put_back, leave}

pub elem_of-add :
    (c x : String) (cs : List String)
    → elem_of x (add c cs) ≡ (if c =? x then true else elem_of x cs)
unfolding add elem_of
elem_of-add c x cs = ground (arith, elem_of-append x cs (c ∷ []), elem_of-eq c x cs)

pub add_nonempty : (c : String) (cs : List String) → add c cs ≢ []
unfolding add elem_of
add_nonempty c [] h = cc h
add_nonempty c (x ∷ cs) h = ground (arith, h)

elem_of-discard :
    (c x : String) (cs : List String)
    → elem_of x (discard c cs) ≡ (if c =? x then false else elem_of x cs)
unfolding discard elem_of
elem_of-discard c x [] = ground arith
elem_of-discard c x (y ∷ cs) = ground (
  arith,
  string_key.beq_iff y c,
  string_key.beq_iff c x,
  string_key.beq_iff y x,
  elem_of-discard c x cs,
)

pub connections_of-insert :
    (u v : String) (cs : List String) (d : Dict String (List String))
    → connections_of v (insert u cs d) ≡ (if u =? v then cs else connections_of v d)
unfolding connections_of
connections_of-insert u v cs d = ground (arith, lookup-insert u v cs d)

connections_of-erase :
    (u v : String) (d : Dict String (List String))
    → connections_of v (erase u d) ≡ (if u =? v then [] else connections_of v d)
unfolding connections_of
connections_of-erase u v d = ground (arith, lookup-erase u v d)

pub contains-insert :
    {A : Type 0} (k j : String) (v : A) (d : Dict String A)
    → contains j (insert k v d) ≡ (if k =? j then true else contains j d)
contains-insert k j v d =
    ground (arith, contains-lookup j (insert k v d), contains-lookup j d, lookup-insert k j v d)

pub contains-erase :
    {A : Type 0} (k j : String) (d : Dict String A)
    → contains j (erase k d) ≡ (if k =? j then false else contains j d)
contains-erase k j d =
    ground (arith, contains-lookup j (erase k d), contains-lookup j d, lookup-erase k j d)

pub occurs-insert :
    {A : Type 0} (k j : String) (v : A) (d : Dict String A)
    → occurs j (keys (insert k v d))
      ≡ (if contains k d then 0 else if k =? j then 1 else 0) + occurs j (keys d)
unfolding occurs insert contains
occurs-insert k j v [] = ground arith
occurs-insert k j v ((i, w) ∷ d) = ground (arith, occurs-insert k j v d)

pub occurs-absent :
    {A : Type 0} (k : String) (d : Dict String A) → contains k d ≡ false → occurs k (keys d) ≡ 0
unfolding occurs contains
occurs-absent k [] h = refl
occurs-absent k ((i, w) ∷ d) h = ground (arith, occurs-absent k d)

pub occurs-erase :
    {A : Type 0} (k j : String) (d : Dict String A)
    → occurs j (keys (erase k d)) ≤ occurs j (keys d)
unfolding occurs erase
occurs-erase k j [] = omega arith
occurs-erase k j ((i, w) ∷ d) = ground (arith, occurs-erase k j d)

elem_of-nil : (c : String) → elem_of c [] ≡ false
unfolding elem_of
elem_of-nil c = refl

connections_of-put_back :
    (u t : String) (cs : List String) (d : Dict String (List String))
    → connections_of t (put_back u cs d) ≡ (if u =? t then cs else connections_of t d)
unfolding put_back
connections_of-put_back u t [] d = connections_of-erase u t d
connections_of-put_back u t (x ∷ cs) d = connections_of-insert u t (x ∷ cs) d

put_back_nonempty :
    (u t : String) (cs : List String) (d : Dict String (List String))
    → lookup t d ≢ some []
    → lookup t (put_back u cs d) ≢ some []
unfolding put_back
put_back_nonempty u t [] d h = ground (arith, h, lookup-erase u t d)
put_back_nonempty u t (x ∷ cs) d h = ground (arith, h, lookup-insert u t (x ∷ cs) d)

connections_of-found :
    (u : String) (cs : List String) (d : Dict String (List String))
    → lookup u d ≡ some cs
    → connections_of u d ≡ cs
unfolding connections_of
connections_of-found u cs d e = ground (arith, e)

connections_of-missing :
    (u : String) (d : Dict String (List String)) → lookup u d ≡ none → connections_of u d ≡ []
unfolding connections_of
connections_of-missing u d e = ground (arith, e)

-- The sets after a connection has left that of its user.
pub elem_of-leave :
    (c u x t : String) (d : Dict String (List String))
    → u ≢ ""
    → elem_of x (connections_of t (leave c (some u) d)) ≡ (
        if u =? t
        then (if c =? x then false else elem_of x (connections_of t d))
        else elem_of x (connections_of t d))
unfolding leave
elem_of-leave c u x t d p = elim (Option-cases (lookup u d)) [
  | inl e ↦ ground (
    arith,
    e,
    p,
    connections_of-missing u d e,
    string_key.beq_iff u "",
    string_key.beq_iff u t,
    elem_of-nil x,
  )
  | inr (cs, e) ↦ ground (
    arith,
    e,
    p,
    connections_of-found u cs d e,
    string_key.beq_iff u "",
    string_key.beq_iff u t,
    connections_of-put_back u t (discard c cs) d,
    elem_of-discard c x cs,
  )
]

pub leave_nonempty :
    (c t : String) (o : Option String) (d : Dict String (List String))
    → lookup t d ≢ some []
    → lookup t (leave c o d) ≢ some []
unfolding leave
leave_nonempty c t none d h = h
leave_nonempty c t (some u) d h = elim (Option-cases (lookup u d)) [
  | inl e ↦ ground (arith, e, h)
  | inr (cs, e) ↦ ground (arith, e, h, put_back_nonempty u t (discard c cs) d h)
]
