-- ===== src/Authority/State.antt =====
-- The data of `DecisionAuthority`. A decision is identified by the second in which it was made and the
-- count of the decisions before it, which its text identifier spells out.
use claude_library.Prelude.{
  ℕ, String, ◌≡◌, ◌↔◌, Bool, true, false, ◌&&◌, not, Option, none, some, List, [], ◌∷◌, ◌==◌,
  ==_iff, arith,
}
use claude_library.Prelude.Key.{Key, string_key, nat_key}

pub data AuthorityLevel : Type 0 where
  loop1 loop3 human harness : AuthorityLevel

-- The value of a level, by which levels are compared.
abbrev pub value : AuthorityLevel → ℕ
value loop1 = 1
value loop3 = 2
value human = 3
value harness = 4

pub value_iff : (a b : AuthorityLevel) → ((value a == value b) ≡ true) ↔ (a ≡ b)
value_iff a b = ground arith

instance abbrev pub level_key : Key AuthorityLevel
level_key = record { beq = λ a b. value a == value b; beq_iff = value_iff }

pub record DecisionId : Type 0 where
  pub stamp : ℕ
  pub number : ℕ

abbrev same_id : DecisionId → DecisionId → Bool
same_id a b = a.stamp == b.stamp && a.number == b.number

pub same_id_iff : (a b : DecisionId) → (same_id a b ≡ true) ↔ (a ≡ b)
same_id_iff a b = ground (arith, ==_iff a.stamp b.stamp, ==_iff a.number b.number)

instance abbrev pub id_key : Key DecisionId
id_key = record { beq = same_id; beq_iff = same_id_iff }

-- Of the metadata, what `veto` and `override` write.
pub record Decision : Type 0 where
  pub id : DecisionId
  pub authority_level : AuthorityLevel
  pub action : String
  pub target : String
  pub reason : String
  pub veto_reason : Option String
  pub override_reason : Option String
  pub vetoed_by : Option AuthorityLevel
  pub overridden_by : Option AuthorityLevel

abbrev pub is_some : Option AuthorityLevel → Bool
is_some none = false
is_some (some _) = true

abbrev pub effective : Decision → Bool
effective d = not (is_some d.vetoed_by) && not (is_some d.overridden_by)

pub data Blocked : Type 0 where
  not_owner no_reason not_found not_above not_human : Blocked

-- `DecisionResult`: the decision, or why it was blocked and by whom.
pub data DecisionResult : Type 0 where
  allowed : Decision → DecisionResult
  blocked : Blocked → Option AuthorityLevel → DecisionResult

abbrev pub Ownership : Type 0
Ownership = List (AuthorityLevel × List String)

abbrev pub default_ownership : Ownership
default_ownership =
    (
      harness,
      "harness_weights" ∷ "harness_version" ∷ "evaluation_criteria" ∷ "quality_thresholds"
          ∷ "veto_rules" ∷ "integrity_check" ∷ [],
    )
    ∷ (human, "override_rules" ∷ "human_preferences" ∷ "safety_limits" ∷ "audit_policy" ∷ [])
    ∷ (
      loop3,
      "optimization_parameters" ∷ "learning_rate" ∷ "pareto_weights" ∷ "meta_loop_config" ∷ [],
    )
    ∷ (loop1, "execution_context" ∷ "task_parameters" ∷ "runtime_config" ∷ [])
    ∷ []

pub record DecisionAuthority : Type 0 where
  pub ownership : Ownership
  pub decisions : List Decision
  pub decision_counter : ℕ
  pub veto_callbacks : List ℕ
  pub override_callbacks : List ℕ
