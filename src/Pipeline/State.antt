-- ===== src/Pipeline/State.antt =====
-- The steps of a pipeline, their results and the fields of `PipelineExecutor`. A step's function is
-- what its calls do, by the number of the attempt and the outputs that it is given.
use claude_library.Prelude.{ℕ, String, Bool, Option, List}
use claude_library.Prelude.Dict.{Dict}

pub data StepStatus : Type 0 where
  pending running success failed skipped retrying : StepStatus

-- What one call of a step's function does: it returns, runs into the timeout, or raises.
pub data Attempt (V : Type 0) : Type 0 where
  returns : V → Attempt V
  times_out : Attempt V
  raises : String → Attempt V

-- The texts of `StepResult.error`.
pub data StepError : Type 0 where
  not_executed skipped_for dependency_failed : String → StepError
  timed_out : StepError
  message : String → StepError

pub record StepResult (V : Type 0) : Type 0 where
  pub step_name : String
  pub status : StepStatus
  pub output : Option V
  pub error : Option StepError
  pub retries : ℕ

-- `retry_delay`, the timeout's length and `on_failure`, whose exceptions are swallowed, are left out.
pub record StepConfig (V : Type 0) : Type 0 where
  pub name : String
  pub func : ℕ → Dict String (Option V) → Attempt V
  pub depends_on : List String
  pub retries : ℕ
  pub skip_on_error : Bool

pub record PipelineExecutor (V : Type 0) : Type 0 where
  pub stop_on_first_failure : Bool
  pub steps : Dict String (StepConfig V)
  pub results : Dict String (StepResult V)
  pub is_running : Bool
