-- ===== src/Pipeline/Run/Outcome.antt =====
-- What `run` leaves behind.
use mathlib.Core.Path.{subst}
use claude_library.Prelude.{
  ◌≡◌, String, refl, sym, ◌∙◌, true, false, none, some, List, [], arith, Bool-cases, inl, inr,
}
use claude_library.Prelude.Key.{string_key}
use claude_library.Prelude.Dict.{Dict, keys, lookup, contains, contains-lookup}
use claude_library.Prelude.Sets.{elem_of, occurs, IsDistinct, elem_of-occurs}
use claude_library.Pipeline.State.{StepResult, StepConfig, PipelineExecutor}
use claude_library.Pipeline.Sort.{ordered, topological_sort}
use claude_library.Pipeline.Sort.Order.{sort-IsSorted}
use claude_library.Pipeline.Levels.{group_by_level}
use claude_library.Pipeline.Levels.Layers.{group_by_level-AreLevels}
use claude_library.Pipeline.Run.{execute_step, run_levels, run}
use claude_library.Pipeline.Run.Results.{IsSettled, some_inj}
use claude_library.Pipeline.Run.Schedule.{run_levels-IsSettled}

-- The results of a run: each is what the step gives on the results of the run as they are at the end,
-- and a run that does not stop has one for each step.
pub record IsRun {V : Type 0} (p : PipelineExecutor V) (results : Dict String (StepResult V))
    : Type 0 where
  pub given :
      (n : String) (step : StepConfig V) (x : StepResult V)
      → lookup n p.steps ≡ some step
      → lookup n results ≡ some x
      → x ≡ execute_step step results
  pub complete :
      p.stop_on_first_failure ≡ false
      → (n : String) (step : StepConfig V) → lookup n p.steps ≡ some step
      → lookup n results ≡ some (execute_step step results)
  pub only_steps : (n : String) → lookup n p.steps ≡ none → lookup n results ≡ none

module _ {V : Type 0} (p : PipelineExecutor V) (distinct : IsDistinct (keys p.steps))
    (idle : p.is_running ≡ false) where
  module _ (arrange schedule : List String → List String)
      (arranged : (k : String) (xs : List String) → occurs k (arrange xs) ≡ occurs k xs)
      (scheduled : (k : String) (xs : List String) → occurs k (schedule xs) ≡ occurs k xs)
      (order : List String) (sorted : topological_sort arrange p.steps ≡ ordered order) where
    results_of : Dict String (StepResult V)
    results_of =
        run_levels p.steps schedule p.stop_on_first_failure (group_by_level p.steps order) []

    run-eq : run arrange schedule p ≡ (none, record p { results = results_of })
    unfolding run results_of
    run-eq = ground (arith, sorted)

    -- The names of the order are those of the steps.
    pub in_order_named : (n : String) → elem_of n order ≡ contains n p.steps
    in_order_named n = ground (
      arith,
      (sort-IsSorted arrange arranged p.steps distinct order sorted).each n,
      elem_of-occurs n order,
    )

    IsSettled-steps :
        (seen : List String) × IsSettled p.steps seen results_of
        × ((n : String) → elem_of n seen ≡ true → elem_of n order ≡ true)
        × (p.stop_on_first_failure ≡ false
            → (n : String) → elem_of n order ≡ true
            → elem_of n seen ≡ true)
    unfolding results_of
    IsSettled-steps =
        let s = sort-IsSorted arrange arranged p.steps distinct order sorted in
        let u : IsDistinct order = λ n. ground (arith, s.each n) in
        let l = group_by_level-AreLevels p.steps order s.in_order u in
        run_levels-IsSettled schedule scheduled p.steps p.stop_on_first_failure order
          (group_by_level p.steps order) u l.layered l.each

    results_of-IsRun : IsRun p results_of
    results_of-IsRun =
        let (seen, v, g, f) = IsSettled-steps in
        record {
          given = λ n step x found h. elim (Bool-cases (elem_of n seen)) [
            | inl m ↦ some_inj x (execute_step step results_of) (sym h ∙ v.settled n step m found)
            | inr m ↦ absurd (cc (sym h ∙ v.fresh n m))
          ];
          complete = λ s n step found.
              v.settled n step
                (f s n (in_order_named n ∙ ground (arith, contains-lookup n p.steps, found))) found;
          only_steps = λ n e.
              v.fresh n (ground (arith, g n, in_order_named n, contains-lookup n p.steps, e));
        }

    -- Where a pipeline is not running, its steps have different names and the sort returns an order,
    -- a run raises no error and keeps the steps. In whatever order the steps of a level end, the
    -- results are those of a run: each is what its step gives on the results at the end, only steps
    -- have one, and if the run does not stop at a failure, every step has one.
    pub run_settles :
        let (error, p') = run arrange schedule p in
        (error ≡ none) × (p'.steps ≡ p.steps) × IsRun p p'.results
    run_settles =
        subst (λ r. (r.0 ≡ none) × (r.1.steps ≡ p.steps) × IsRun p r.1.results) (sym run-eq)
          (refl, refl, results_of-IsRun)
