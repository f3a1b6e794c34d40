-- ===== src/Authority/Decisions.antt =====
-- The operations of `DecisionAuthority`.
use claude_library.Prelude.{
  ℕ, ◌+◌, String, Bool, true, ◌&&◌, not, Option, none, some, List, [], ◌∷◌, ◌++◌, map, ltb, leb,
  if◌then◌else◌, length, count_if, filter,
}
use claude_library.Prelude.Key.{Key, string_key, nat_key, ◌=?◌}
use claude_library.Prelude.Sets.{elem_of}
use claude_library.Authority.State.{
  AuthorityLevel, value, level_key, DecisionId, id_key, Decision, is_some, effective,
  DecisionResult, Ownership, default_ownership, DecisionAuthority, human, not_owner, no_reason,
  not_found, not_above, not_human, allowed, blocked,
}

-- `ownership or DEFAULT_OWNERSHIP`: an empty map is replaced too.
unfoldable pub init : Option Ownership → DecisionAuthority
init given = record {
  ownership = elim given [
    | none ↦ default_ownership
    | some o ↦ elim o [ [] ↦ default_ownership | x ∷ xs ↦ x ∷ xs ]
  ];
  decisions = [];
  decision_counter = 0;
  veto_callbacks = [];
  override_callbacks = [];
}

unfoldable pub get_owner : String → Ownership → Option AuthorityLevel
get_owner target [] = none
get_owner target ((level, targets) ∷ o) =
    if elem_of target targets then some level else get_owner target o

unfoldable pub can_modify : String → AuthorityLevel → Ownership → Bool
unfolding get_owner
can_modify target level o = elim (get_owner target o) [
  | none ↦ true
  | some owner ↦ leb (value owner) (value level)
]

unfoldable pub make_decision :
    ℕ
    → AuthorityLevel
    → String
    → String
    → String
    → DecisionAuthority
    → DecisionResult × DecisionAuthority
unfolding get_owner
make_decision now level action target reason a =
    let decision : Decision = record {
      id = record { stamp = now; number = a.decision_counter + 1 };
      authority_level = level;
      action = action;
      target = target;
      reason = reason;
      veto_reason = none;
      override_reason = none;
      vetoed_by = none;
      overridden_by = none;
    } in
    let made : DecisionResult × DecisionAuthority = (
      allowed decision,
      record a {
        decisions = a.decisions ++ decision ∷ [];
        decision_counter = a.decision_counter + 1;
      },
    ) in
    elim (get_owner target a.ownership) [
      | none ↦ made
      | some owner ↦
          if ltb (value level) (value owner) then (blocked not_owner (some owner), a) else made
    ]

unfoldable pub find : DecisionId → List Decision → Option Decision
find id [] = none
find id (d ∷ ds) = if d.id =? id then some d else find id ds

unfoldable pub get_decision : DecisionId → DecisionAuthority → Option Decision
unfolding find
get_decision id a = find id a.decisions

-- The decision that is found is changed in place.
unfoldable pub update : DecisionId → Decision → List Decision → List Decision
update id e [] = []
update id e (d ∷ ds) = if d.id =? id then e ∷ ds else d ∷ update id e ds

-- A call of a callback with a decision.
pub record Notice : Type 0 where
  pub callback : ℕ
  pub decision : Decision

unfoldable pub veto :
    DecisionId
    → AuthorityLevel
    → String
    → DecisionAuthority
    → DecisionResult × DecisionAuthority × List Notice
unfolding get_decision update
veto id vetoing_level reason a =
    if reason =? "" then (blocked no_reason none, a, []) else elim (get_decision id a) [
      | none ↦ (blocked not_found none, a, [])
      | some d ↦
          if leb (value vetoing_level) (value d.authority_level)
          then (blocked not_above (some d.authority_level), a, [])
          else (let e = record d { vetoed_by = some vetoing_level; veto_reason = some reason } in
              (
                allowed e,
                record a { decisions = update id e a.decisions },
                map (λ c. record { callback = c; decision = e }) a.veto_callbacks,
              ))
    ]

unfoldable pub override :
    DecisionId
    → AuthorityLevel
    → String
    → DecisionAuthority
    → DecisionResult × DecisionAuthority × List Notice
unfolding get_decision update
override id overriding_level reason a =
    if not (overriding_level =? human)
    then (blocked not_human none, a, [])
    else if reason =? ""
    then (blocked no_reason none, a, [])
    else elim (get_decision id a) [
      | none ↦ (blocked not_found none, a, [])
      | some d ↦
          (let e = record d {
            overridden_by = some overriding_level;
            override_reason = some reason;
          } in
            (
              allowed e,
              record a { decisions = update id e a.decisions },
              map (λ c. record { callback = c; decision = e }) a.override_callbacks,
            ))
    ]

-- An optional criterion of `get_decisions`.
abbrev pub matches {ℓ} : {K : Type ℓ} ⦃e : Key K⦄ → Option K → K → Bool
matches none k = true
matches (some j) k = k =? j

unfoldable pub get_decisions :
    Option AuthorityLevel → Option String → Option String → Bool → DecisionAuthority → List Decision
get_decisions level target action effective_only a =
    filter
      (λ d.
        matches level d.authority_level
        && matches target d.target
        && matches action d.action
        && (if effective_only then effective d else true))
      a.decisions

-- The rates as fractions: vetoed to all decisions, and overridden to vetoed ones; 0 of a zero count.
abbrev pub vetoed : Decision → Bool
vetoed d = is_some d.vetoed_by

abbrev pub overridden : Decision → Bool
overridden d = is_some d.overridden_by

unfoldable pub get_veto_rate : DecisionAuthority → ℕ × ℕ
get_veto_rate a = (count_if vetoed a.decisions, length a.decisions)

unfoldable pub get_override_rate : DecisionAuthority → ℕ × ℕ
get_override_rate a = (count_if overridden a.decisions, count_if vetoed a.decisions)

unfoldable pub register_veto_callback : ℕ → DecisionAuthority → DecisionAuthority
register_veto_callback c a = record a { veto_callbacks = a.veto_callbacks ++ c ∷ [] }

unfoldable pub register_override_callback : ℕ → DecisionAuthority → DecisionAuthority
register_override_callback c a = record a { override_callbacks = a.override_callbacks ++ c ∷ [] }

unfoldable pub clear : DecisionAuthority → ℕ × DecisionAuthority
clear a = (length a.decisions, record a { decisions = [] })
