-- ===== src/Pipeline/Run.antt =====
-- `_execute_step` and `run`. The steps of a level run at the same time; `schedule` is the order in which
-- the steps of a level end, and a step reads the results of its dependencies when it starts.
pub mod Results
pub mod Schedule
pub mod Outcome
pub mod Failure
use claude_library.Prelude.{
  ℕ, zero, suc, ◌+◌, String, Bool, true, false, Option, none, some, List, [], ◌∷◌, if◌then◌else◌,
  any,
}
use claude_library.Prelude.Key.{string_key}
use claude_library.Prelude.Dict.{Dict, lookup, insert}
use claude_library.Pipeline.State.{
  StepStatus, pending, running, success, failed, skipped, retrying, Attempt, returns, times_out,
  raises, StepError, not_executed, skipped_for, dependency_failed, timed_out, message, StepResult,
  StepConfig, PipelineExecutor,
}
use claude_library.Pipeline.Sort.{
  ordered, unknown_dependency, circular, out_of_fuel, topological_sort,
}
use claude_library.Pipeline.Levels.{group_by_level}

abbrev pub is_failed : StepStatus → Bool
is_failed pending = false
is_failed running = false
is_failed success = false
is_failed failed = true
is_failed skipped = false
is_failed retrying = false

-- Why a pipeline does not run.
pub data RunError : Type 0 where
  already_running : RunError
  depends_on_unknown : String → String → RunError
  circular_dependency : RunError
  endless : RunError

module _ {V : Type 0} where
  -- The loop over the dependencies before the step is called: the result of a step that is not called.
  unfoldable pub check_dependencies :
      Dict String (StepResult V) → StepConfig V → List String → Option (StepResult V)
  check_dependencies results step [] = none
  check_dependencies results step (dep_name ∷ deps) =
      let rest = check_dependencies results step deps in
      elim (lookup dep_name results) [
        | none ↦ some (stopped failed (not_executed dep_name))
        | some dep_result ↦
            if is_failed dep_result.status
            then (if step.skip_on_error
                then some (stopped skipped (skipped_for dep_name))
                else some (stopped failed (dependency_failed dep_name)))
            else rest
      ]
    where
      stopped : StepStatus → StepError → StepResult V
      stopped status error = record {
        step_name = step.name;
        status = status;
        output = none;
        error = some error;
        retries = 0;
      }

  -- `kwargs[dep_name] = dep_result.output`
  unfoldable pub kwargs_of :
      Dict String (StepResult V) → List String → Dict String (Option V) → Dict String (Option V)
  kwargs_of results [] kwargs = kwargs
  kwargs_of results (dep_name ∷ deps) kwargs =
      kwargs_of results deps (insert dep_name (output_of (lookup dep_name results)) kwargs)
    where
      output_of : Option (StepResult V) → Option V
      output_of none = none
      output_of (some r) = r.output

  -- `for attempt in range(retries + 1)`, with the attempts that are left, the number of the next one and
  -- the last error.
  unfoldable pub attempts :
      StepConfig V → Dict String (Option V) → ℕ → ℕ → Option StepError → StepResult V
  attempts step kwargs zero next last = record {
    step_name = step.name;
    status = failed;
    output = none;
    error = last;
    retries = step.retries;
  }
  attempts step kwargs (suc left) next last = elim (step.func next kwargs) [
    | returns v ↦ record {
      step_name = step.name;
      status = success;
      output = some v;
      error = none;
      retries = next;
    }
    | times_out ↦ attempts step kwargs left (next + 1) (some timed_out)
    | raises e ↦ attempts step kwargs left (next + 1) (some (message e))
  ]

  unfoldable pub execute_step : StepConfig V → Dict String (StepResult V) → StepResult V
  unfolding check_dependencies kwargs_of attempts
  execute_step step results = elim (check_dependencies results step step.depends_on) [
    | some result ↦ result
    | none ↦ attempts step (kwargs_of results step.depends_on []) (suc step.retries) 0 none
  ]

  module _ (steps : Dict String (StepConfig V)) where
    -- The steps of a level, in the order in which they end. Every name of a level is a step.
    unfoldable pub run_level : List String → Dict String (StepResult V) → Dict String (StepResult V)
    unfolding execute_step
    run_level [] results = results
    run_level (name ∷ names) results = elim (lookup name steps) [
      | none ↦ run_level names results
      | some step ↦ run_level names (insert name (execute_step step results) results)
    ]

    unfoldable pub has_failed : Dict String (StepResult V) → String → Bool
    has_failed results name = elim (lookup name results) [
      | none ↦ false
      | some r ↦ is_failed r.status
    ]

    unfoldable pub run_levels :
        (List String → List String)
        → Bool
        → List (List String)
        → Dict String (StepResult V)
        → Dict String (StepResult V)
    unfolding run_level has_failed
    run_levels schedule stop [] results = results
    run_levels schedule stop (level ∷ levels) results =
        let results' = run_level (schedule level) results in
        let rest = run_levels schedule stop levels results' in
        if stop then (if any (has_failed results') level then results' else rest) else rest

  -- `run()` without a list of steps: the error that it raises, or the results.
  unfoldable pub run :
      (List String → List String)
      → (List String → List String)
      → PipelineExecutor V
      → Option RunError × PipelineExecutor V
  unfolding topological_sort group_by_level run_levels
  run arrange schedule p =
      if p.is_running then (some already_running, p) else elim (topological_sort arrange p.steps) [
        | unknown_dependency n d ↦ (some (depends_on_unknown n d), record p { results = [] })
        | circular ↦ (some circular_dependency, record p { results = [] })
        | out_of_fuel ↦ (some endless, record p { results = [] })
        | ordered order ↦ (
          none,
          record p {
            results =
                run_levels p.steps schedule p.stop_on_first_failure (group_by_level p.steps order)
                  [];
          },
        )
      ]

  -- `add_step`, and the decorator `step`
  unfoldable pub add_step : StepConfig V → PipelineExecutor V → PipelineExecutor V
  add_step step p = record p { steps = insert step.name step p.steps }

  unfoldable pub reset : PipelineExecutor V → PipelineExecutor V
  reset p = record p { results = [] }
