-- ===== src/Pipeline/Levels.antt =====
-- `_group_by_level`: the steps of an order, in levels that run one after the other.
pub mod Layers
use claude_library.Prelude.{
  ℕ, zero, suc, ◌+◌, ◌≤◌, ◌<◌, max, String, ◌≡◌, refl, ap, sym, ◌∙◌, Bool, true, false, Option,
  none, some, List, [], ◌∷◌, ◌++◌, arith, ◌==◌, if◌then◌else◌, ◌⊎◌, inl, inr, Bool-cases,
}
use claude_library.Prelude.Key.{string_key, ◌=?◌, beq_refl}
use claude_library.Prelude.Dict.{Dict, lookup, insert, lookup-insert}
use claude_library.Prelude.Sets.{
  elem_of, elem_of-append, elem_of-eq, occurs, occurs-append, IsDistinct, IsDistinct-rest,
  IsDistinct-first, elem_of-occurs,
}
use claude_library.Pipeline.State.{StepConfig}
use claude_library.Pipeline.Sort.Build.{deps_of}
use claude_library.Pipeline.Sort.Kahn.{IsInOrder}

-- `step_level.get(dep, 0)`
unfoldable pub level_of : String → Dict String ℕ → ℕ
level_of dep step_level = elim (lookup dep step_level) [ none ↦ 0 | some k ↦ k ]

unfoldable pub max_level : List String → Dict String ℕ → ℕ
unfolding level_of
max_level [] step_level = 0
max_level (dep ∷ deps) step_level = max (level_of dep step_level) (max_level deps step_level)

unfoldable pub level_after : List String → Dict String ℕ → ℕ
unfolding max_level
level_after [] step_level = 0
level_after (dep ∷ deps) step_level = max_level (dep ∷ deps) step_level + 1

-- `levels[level].append(name)`, after the levels up to it have been made.
unfoldable pub place : ℕ → String → List (List String) → List (List String)
place zero name [] = (name ∷ []) ∷ []
place zero name (l ∷ ls) = (l ++ name ∷ []) ∷ ls
place (suc level) name [] = [] ∷ place level name []
place (suc level) name (l ∷ ls) = l ∷ place level name ls

module _ {V : Type 0} (steps : Dict String (StepConfig V)) where
  unfoldable pub group : List String → Dict String ℕ → List (List String) → List (List String)
  unfolding level_after place
  group [] step_level levels = levels
  group (name ∷ rest) step_level levels =
      let level = level_after (deps_of steps name) step_level in
      group rest (insert name level step_level) (place level name levels)

  unfoldable pub group_by_level : List String → List (List String)
  unfolding group
  group_by_level order = group order [] []

-- All names of all levels, level by level.
abbrev pub flatten {ℓ} : {A : Type ℓ} → List (List A) → List A
flatten [] = []
flatten (l ∷ ls) = l ++ flatten ls

abbrev pub level_at : ℕ → List (List String) → List String
level_at k [] = []
level_at zero (l ∷ ls) = l
level_at (suc k) (l ∷ ls) = level_at k ls

-- The dependencies of each level stand in the levels before it, or among the names seen.
abbrev pub IsLayered : (String → List String) → List String → List (List String) → Type 0
IsLayered deps seen [] = Unit
IsLayered deps seen (l ∷ ls) =
    ((n d : String) → elem_of n l ≡ true → elem_of d (deps n) ≡ true → elem_of d seen ≡ true)
    × IsLayered deps (l ++ seen) ls
