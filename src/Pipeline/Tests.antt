-- ===== src/Pipeline/Tests.antt =====
-- A pipeline of three steps, the second of which fails, at concrete values.
use claude_library.Prelude.{
  ◌<◌, ◌∙◌, sym, inl, inr, Bool-cases, ◌++◌, ℕ, String, ◌≡◌, ◌≢◌, refl, arith, true, false, none,
  some, List, [], ◌∷◌, if◌then◌else◌,
}
use claude_library.Prelude.Key.{string_key, ◌=?◌}
use claude_library.Prelude.Dict.{Dict, lookup, keys, insert, contains}
use claude_library.Prelude.Sets.{
  elem_of, occurs, IsDistinct, occurs-append, IsDistinct-nil, IsDistinct-cons,
}
use claude_library.Pipeline.State.{
  returns, raises, skipped, failed, StepConfig, StepResult, PipelineExecutor, message,
}
use claude_library.Pipeline.Sort.{
  ordered, out_of_fuel, degree, successors, add_to_set, topological_sort,
}
use claude_library.Pipeline.Sort.Build.{deps_of}
use claude_library.Pipeline.Sort.Order.{IsSorted, sort_terminates, sort-IsSorted, acyclic_sorts}
use claude_library.Pipeline.Levels.{group_by_level}
use claude_library.Pipeline.Levels.Layers.{AreLevels, group_by_level-AreLevels}
use claude_library.Pipeline.Run.{run}
use claude_library.Pipeline.Run.Outcome.{IsRun, run_settles}
use claude_library.Pipeline.Run.Failure.{schedule_independent, failure_spreads}

abbrev extract : StepConfig ℕ
extract = record {
  name = "extract";
  func = λ attempt kwargs. returns 7;
  depends_on = [];
  retries = 0;
  skip_on_error = false;
}

abbrev transform : StepConfig ℕ
transform = record {
  name = "transform";
  func = λ attempt kwargs. raises "broken";
  depends_on = "extract" ∷ [];
  retries = 2;
  skip_on_error = false;
}

abbrev load : StepConfig ℕ
load = record {
  name = "load";
  func = λ attempt kwargs. returns 1;
  depends_on = "transform" ∷ "extract" ∷ [];
  retries = 0;
  skip_on_error = true;
}

abbrev etl : Dict String (StepConfig ℕ)
etl = ("load", load) ∷ ("extract", extract) ∷ ("transform", transform) ∷ []

abbrev executor : PipelineExecutor ℕ
executor = record { stop_on_first_failure = false; steps = etl; results = []; is_running = false }

abbrev twice : Dict String (StepConfig ℕ)
twice =
    ("extract", extract)
    ∷ ("transform", record transform { depends_on = "extract" ∷ "extract" ∷ [] })
    ∷ []

abbrev identity : List String → List String
identity xs = xs

abbrev etl_order : List String
etl_order = "extract" ∷ "transform" ∷ "load" ∷ []

etl-IsDistinct : IsDistinct (keys etl)
unfolding occurs
etl-IsDistinct = IsDistinct-cons "load" ("extract" ∷ "transform" ∷ []) refl (
    IsDistinct-cons "extract" ("transform" ∷ []) refl
      (IsDistinct-cons "transform" [] refl IsDistinct-nil))

etl_order-IsDistinct : IsDistinct etl_order
unfolding occurs
etl_order-IsDistinct =
    IsDistinct-cons "extract" ("transform" ∷ "load" ∷ []) refl (
      IsDistinct-cons "transform" ("load" ∷ []) refl
        (IsDistinct-cons "load" [] refl IsDistinct-nil))

twice-IsDistinct : IsDistinct (keys twice)
unfolding occurs
twice-IsDistinct =
    IsDistinct-cons "extract" ("transform" ∷ []) refl
      (IsDistinct-cons "transform" [] refl IsDistinct-nil)

etl_sorts : topological_sort identity etl ≡ ordered etl_order
unfolding topological_sort elem_of lookup insert contains degree successors add_to_set
etl_sorts = refl

sort_terminates_example : topological_sort identity etl ≢ out_of_fuel
sort_terminates_example = sort_terminates identity (λ k xs. refl) etl etl-IsDistinct

sort-IsSorted_example : IsSorted etl etl_order
sort-IsSorted_example = sort-IsSorted identity (λ k xs. refl) etl etl-IsDistinct etl_order etl_sorts

apart : (a b k : String) → (a =? b) ≡ false → (a =? k) ≡ true → (b =? k) ≡ false
apart a b k f h = elim (Bool-cases (b =? k)) [
  | inl e ↦
      let p : a ≡ b = (string_key.beq_iff a k).0 h ∙ sym ((string_key.beq_iff b k).0 e) in
      absurd (cc (f, (string_key.beq_iff a b).1 p))
  | inr e ↦ e
]

abbrev rank : String → ℕ
rank n = if "load" =? n then 2 else if "transform" =? n then 1 else 0

rank_grows : (d n : String) → elem_of d (deps_of etl n) ≡ true → rank d < rank n
unfolding elem_of lookup
rank_grows d n = ground (
  arith,
  apart "transform" "load" d refl,
  apart "extract" "load" d refl,
  apart "extract" "transform" d refl,
)

etl_deps-IsDistinct : (n : String) → IsDistinct (deps_of etl n)
unfolding lookup occurs
etl_deps-IsDistinct n =
    λ k. ground (arith, apart "transform" "extract" k refl, apart "extract" "transform" k refl)

etl_deps_known : (d n : String) → elem_of d (deps_of etl n) ≡ true → contains d etl ≡ true
unfolding elem_of lookup contains
etl_deps_known d n = ground arith

acyclic_sorts_example : (order : List String) × (topological_sort identity etl ≡ ordered order)
acyclic_sorts_example =
    acyclic_sorts identity (λ k xs. refl) etl etl-IsDistinct rank rank_grows etl_deps-IsDistinct
      etl_deps_known

group_by_level-AreLevels_example : AreLevels (deps_of etl) etl_order (group_by_level etl etl_order)
group_by_level-AreLevels_example =
    group_by_level-AreLevels etl etl_order (sort-IsSorted_example).in_order etl_order-IsDistinct

run_settles_example :
    let (error, p') = run identity identity executor in
    (error ≡ none) × (p'.steps ≡ etl) × IsRun executor p'.results
run_settles_example =
    run_settles executor etl-IsDistinct refl identity identity (λ k xs. refl) (λ k xs. refl)
      etl_order etl_sorts

-- The steps of a level end in the opposite order.
abbrev backwards : List String → List String
backwards [] = []
backwards (x ∷ xs) = backwards xs ++ x ∷ []

occurs-backwards : (k : String) (xs : List String) → occurs k (backwards xs) ≡ occurs k xs
unfolding occurs
occurs-backwards k [] = refl
occurs-backwards k (x ∷ xs) =
    ground (arith, occurs-append k (backwards xs) (x ∷ []), occurs-backwards k xs)

schedule_independent_example :
    lookup "load" (run identity identity executor).1.results
    ≡ lookup "load" (run identity backwards executor).1.results
schedule_independent_example =
    schedule_independent executor identity identity identity backwards etl_order etl_order
      etl-IsDistinct refl refl (λ k xs. refl) (λ k xs. refl) (λ k xs. refl) occurs-backwards
      etl_sorts etl_sorts "load"

failure_spreads_example :
    (y : StepResult ℕ) × (lookup "load" (run identity identity executor).1.results ≡ some y)
    × (y.output ≡ none)
    × (y.status ≡ skipped)
unfolding run topological_sort elem_of lookup insert contains degree successors add_to_set
    group_by_level
failure_spreads_example =
    failure_spreads executor identity identity etl_order "load" "transform" load
      (record {
        step_name = "transform";
        status = failed;
        output = none;
        error = some (message "broken");
        retries = 2;
      })
      etl-IsDistinct refl refl (λ k xs. refl) (λ k xs. refl) etl_sorts refl refl refl refl
