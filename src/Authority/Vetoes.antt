-- ===== src/Authority/Vetoes.antt =====
-- Vetoes and overrides: what they change, and what holds after any sequence of operations.
use claude_library.Prelude.{
  ◌≤◌, ◌<◌, ◌≡◌, ◌≢◌, ◌⊎◌, inl, inr, ap, sym, ◌∙◌, String, false, none, some, List, [], ◌∷◌, arith,
  if◌then◌else◌, leb, map, Bool-cases, Option-cases,
}
use claude_library.Prelude.Key.{string_key, ◌=?◌}
use claude_library.Authority.State.{
  AuthorityLevel, human, value, level_key, DecisionId, id_key, Decision, effective, allowed,
  blocked, no_reason, not_found, not_above, DecisionAuthority,
}
use claude_library.Authority.Decisions.{find, get_decision, update, veto, override}
use claude_library.Authority.Lawful.{some_inj}

-- A decision after a veto, and after an override.
abbrev pub with_veto : AuthorityLevel → String → Decision → Decision
with_veto level reason d = record d { vetoed_by = some level; veto_reason = some reason }

abbrev pub with_override : String → Decision → Decision
with_override reason d = record d { overridden_by = some human; override_reason = some reason }

abbrev pub changed : DecisionId → Decision → DecisionAuthority → DecisionAuthority
changed id e a = record a { decisions = update id e a.decisions }

find-update :
    (id j : DecisionId) (d e : Decision) (ds : List Decision)
    → find id ds ≡ some d
    → e.id ≡ id
    → find j (update id e ds) ≡ (if id =? j then some e else find j ds)
unfolding find update
find-update id j d e [] h q = absurd (cc h)
find-update id j d e (x ∷ ds) h q = ground (
  arith,
  h,
  q,
  find-update id j d e ds,
  id_key.beq_iff x.id id,
  id_key.beq_iff x.id j,
  id_key.beq_iff id j,
  id_key.beq_iff e.id j,
)

pub not_empty : (s : String) → (s =? "") ≡ false → s ≢ ""
not_empty s h e = cc (h, (string_key.beq_iff s "").1 e)

found_id : (id : DecisionId) (d : Decision) (ds : List Decision) → find id ds ≡ some d → d.id ≡ id
unfolding find
found_id id d [] h = absurd (cc h)
found_id id d (x ∷ ds) h = elim (Bool-cases (x.id =? id)) [
  | inl q ↦
      ap (λ k. k.id) (sym (some_inj x d (ground (arith, q, h)))) ∙ (id_key.beq_iff x.id id).0 q
  | inr q ↦ found_id id d ds (ground (arith, q, h))
]

-- A veto is allowed exactly where it has a reason and comes from a level above that of a decision on
-- record. It then marks this decision, of which every callback is told, and changes no other. Any other
-- veto is blocked, changes nothing and tells no one, and the result names the reason: that the veto has
-- none, or that the decision is not on record, or that its level, which is named, is as high.
pub veto_decides :
    (id : DecisionId) (level : AuthorityLevel) (reason : String) (a : DecisionAuthority)
    → let (result, b, notices) = veto id level reason a in
      ((d : Decision) × (get_decision id a ≡ some d)
        × (reason ≢ "")
        × (value d.authority_level < value level)
        × (result ≡ allowed (with_veto level reason d))
        × (notices
            ≡ map
                (λ c. record { callback = c; decision = with_veto level reason d })
                a.veto_callbacks)
        × ((j : DecisionId)
            → get_decision j b
              ≡ (if id =? j then some (with_veto level reason d) else get_decision j a)))
      ⊎ ((b ≡ a)
          × (notices ≡ [])
          × (((reason ≡ "") × (result ≡ blocked no_reason none))
              ⊎ (((reason ≢ "") × (get_decision id a ≡ none) × (result ≡ blocked not_found none))
                  ⊎ ((d : Decision) × (get_decision id a ≡ some d)
                      × (reason ≢ "")
                      × (value level ≤ value d.authority_level)
                      × (result ≡ blocked not_above (some d.authority_level))))))
unfolding veto get_decision
veto_decides id level reason a = elim (Bool-cases (reason =? "")) [
  | inl q ↦ inr (
    ground (arith, q),
    ground (arith, q),
    inl ((string_key.beq_iff reason "").0 q, ground (arith, q)),
  )
  | inr q ↦ elim (Option-cases (get_decision id a)) [
    | inl f ↦ inr (
      ground (arith, q, f),
      ground (arith, q, f),
      inr (inl (not_empty reason q, f, ground (arith, q, f))),
    )
    | inr (d, f) ↦ elim (Bool-cases (leb (value level) (value d.authority_level))) [
      | inl h ↦ inr (
        ground (arith, q, f, h),
        ground (arith, q, f, h),
        inr (inr (d, f, not_empty reason q, ground (arith, h), ground (arith, q, f, h))),
      )
      | inr h ↦ inl (
        d,
        f,
        not_empty reason q,
        ground (arith, h),
        ground (arith, q, f, h),
        ground (arith, q, f, h),
        λ j. ground (
          arith,
          q,
          f,
          h,
          find-update id j d (with_veto level reason d) a.decisions f (found_id id d a.decisions f),
        ),
      )
    ]
  ]
]

-- A human's override, with a reason, of any decision on record is allowed, whatever the level that
-- has made the decision: the decision is no longer effective, and no other changes.
pub override_ignores_rank :
    (id : DecisionId) (reason : String) (a : DecisionAuthority) (d : Decision)
    → get_decision id a ≡ some d
    → reason ≢ ""
    → let (result, b, notices) = override id human reason a in
      (result ≡ allowed (with_override reason d))
      × (effective (with_override reason d) ≡ false)
      × ((j : DecisionId)
          → get_decision j b
            ≡ (if id =? j then some (with_override reason d) else get_decision j a))
unfolding override get_decision
override_ignores_rank id reason a d f p =
    let q : (reason =? "") ≡ false = ground (arith, p, string_key.beq_iff reason "") in
    (
      ground (arith, q, f),
      ground arith,
      λ j. ground (
        arith,
        q,
        f,
        find-update id j d (with_override reason d) a.decisions f (found_id id d a.decisions f),
      ),
    )
