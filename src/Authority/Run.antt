-- ===== src/Authority/Run.antt =====
-- Any sequence of operations on the record of decisions.
use mathlib.Core.Path.{subst}
use claude_library.Prelude.{
  ℕ, ◌<◌, ◌≡◌, ◌≢◌, ◌⊎◌, inl, inr, refl, sym, ◌∙◌, String, Option, some, List, [], ◌∷◌, arith, leb,
  Bool-cases, Option-cases,
}
use claude_library.Prelude.Key.{string_key, ◌=?◌}
use claude_library.Authority.State.{
  AuthorityLevel, human, value, level_key, DecisionId, id_key, Decision, Ownership,
  DecisionAuthority,
}
use claude_library.Authority.Decisions.{init, make_decision, get_decision, veto, override, clear}
use claude_library.Authority.Lawful.{
  IsSound, IsLawful, make_decision-IsLawful, update-All, update-IsRising, find-All,
}
use claude_library.Authority.Vetoes.{with_veto, with_override, changed, not_empty}

changed-IsLawful :
    (id : DecisionId) (d e : Decision) (a : DecisionAuthority)
    → get_decision id a ≡ some d
    → e.id ≡ d.id
    → (IsSound a.ownership a.decision_counter d → IsSound a.ownership a.decision_counter e)
    → IsLawful a
    → IsLawful (changed id e a)
unfolding get_decision
changed-IsLawful id d e a f i s v =
    let (p, q) = find-All (IsSound a.ownership a.decision_counter) id d a.decisions v.sound f in
    record {
      sound = update-All (IsSound a.ownership a.decision_counter) id e a.decisions (s p) v.sound;
      rising = update-IsRising 0 id e a.decisions (i ∙ q) v.rising;
    }

veto-cases :
    (id : DecisionId) (level : AuthorityLevel) (reason : String) (a : DecisionAuthority)
    → ((d : Decision) × (get_decision id a ≡ some d)
        × (reason ≢ "")
        × (value d.authority_level < value level)
        × ((veto id level reason a).1 ≡ changed id (with_veto level reason d) a))
      ⊎ ((veto id level reason a).1 ≡ a)
unfolding veto
veto-cases id level reason a = elim (Bool-cases (reason =? "")) [
  | inl q ↦ inr (ground (arith, q))
  | inr q ↦ elim (Option-cases (get_decision id a)) [
    | inl f ↦ inr (ground (arith, q, f))
    | inr (d, f) ↦ elim (Bool-cases (leb (value level) (value d.authority_level))) [
      | inl h ↦ inr (ground (arith, q, f, h))
      | inr h ↦ inl (d, f, not_empty reason q, ground (arith, h), ground (arith, q, f, h))
    ]
  ]
]

override-cases :
    (id : DecisionId) (level : AuthorityLevel) (reason : String) (a : DecisionAuthority)
    → ((d : Decision) × (get_decision id a ≡ some d)
        × ((override id level reason a).1 ≡ changed id (with_override reason d) a))
      ⊎ ((override id level reason a).1 ≡ a)
unfolding override
override-cases id level reason a = elim (Bool-cases (level =? human)) [
  | inr k ↦ inr (ground (arith, k))
  | inl k ↦ elim (Bool-cases (reason =? "")) [
    | inl q ↦ inr (ground (arith, k, q))
    | inr q ↦ elim (Option-cases (get_decision id a)) [
      | inl f ↦ inr (ground (arith, k, q, f))
      | inr (d, f) ↦ inl (d, f, ground (arith, k, q, f, level_key.beq_iff level human))
    ]
  ]
]

-- One operation after another.
pub data Operation : Type 0 where
  makes : ℕ → AuthorityLevel → String → String → String → Operation
  vetoes overrides : DecisionId → AuthorityLevel → String → Operation
  clears : Operation

unfoldable pub apply : Operation → DecisionAuthority → DecisionAuthority
apply (makes now level action target reason) a = (make_decision now level action target reason a).1
apply (vetoes id level reason) a = (veto id level reason a).1
apply (overrides id level reason) a = (override id level reason a).1
apply clears a = (clear a).1

unfoldable pub run : List Operation → DecisionAuthority → DecisionAuthority
unfolding apply
run [] a = a
run (o ∷ os) a = run os (apply o a)

veto-IsLawful :
    (id : DecisionId) (level : AuthorityLevel) (reason : String) (a : DecisionAuthority)
    → IsLawful a
    → IsLawful (veto id level reason a).1
veto-IsLawful id level reason a v = elim (veto-cases id level reason a) [
  | inl (d, f, p, h, e) ↦ subst IsLawful (sym e) (
      changed-IsLawful id d (with_veto level reason d) a f refl
        (λ s. record {
          entitled = s.entitled;
          vetoed_above = λ l q. ground (arith, h, q);
          explained = λ l q. (reason, refl, p);
          by_human = s.by_human;
          counted = s.counted;
        })
        v)
  | inr e ↦ subst IsLawful (sym e) v
]

override-IsLawful :
    (id : DecisionId) (level : AuthorityLevel) (reason : String) (a : DecisionAuthority)
    → IsLawful a
    → IsLawful (override id level reason a).1
override-IsLawful id level reason a v = elim (override-cases id level reason a) [
  | inl (d, f, e) ↦ subst IsLawful (sym e) (
      changed-IsLawful id d (with_override reason d) a f refl
        (λ s. record {
          entitled = s.entitled;
          vetoed_above = s.vetoed_above;
          explained = s.explained;
          by_human = λ l q. ground (arith, q);
          counted = s.counted;
        })
        v)
  | inr e ↦ subst IsLawful (sym e) v
]

apply-IsLawful : (o : Operation) (a : DecisionAuthority) → IsLawful a → IsLawful (apply o a)
unfolding apply clear
apply-IsLawful (makes now level action target reason) a v =
    make_decision-IsLawful now level action target reason a v
apply-IsLawful (vetoes id level reason) a v = veto-IsLawful id level reason a v
apply-IsLawful (overrides id level reason) a v = override-IsLawful id level reason a v
apply-IsLawful clears a v = record { sound = tt; rising = tt }

run_from-IsLawful : (os : List Operation) (a : DecisionAuthority) → IsLawful a → IsLawful (run os a)
unfolding run
run_from-IsLawful [] a v = v
run_from-IsLawful (o ∷ os) a v = run_from-IsLawful os (apply o a) (apply-IsLawful o a v)

-- Whatever decisions, vetoes, overrides and clearings follow one another, under any ownership: every
-- decision on record was made by the owner of its target or a level above it, has been vetoed only by a
-- higher level and with a reason, has been overridden only by a human, and no two have one identifier.
pub run-IsLawful : (o : Option Ownership) (os : List Operation) → IsLawful (run os (init o))
unfolding init
run-IsLawful o os = run_from-IsLawful os (init o) (new o)
  where
    new : (o : Option Ownership) → IsLawful (init o)
    new o = record { sound = tt; rising = tt }
