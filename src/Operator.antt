-- ===== src/Operator.antt =====
-- operator.go and step.go: the parts of a runbook that a run reads, and the state that it changes.
-- The Go type `operator` holds both; here `Runbook` is what a run only reads, and `Run` the rest.
pub mod Exec
pub mod Record
pub mod Runners
pub mod RunStep
pub mod Fits
pub mod Sequence
pub mod Frame
pub mod Stages
pub mod Parts
pub mod StepFn
pub mod StepRounds
pub mod StepRuns
pub mod StepEnds
pub mod Outcomes
pub mod Noting
pub mod StepNotes
pub mod OneStep
pub mod AllSteps
pub mod Conclusion
pub mod Ending
pub mod Stops
pub mod Internal
pub mod Runs
pub mod Rounds
pub mod RoundSteps
pub mod RunLoops
pub mod Hooks
use runn.Common.{ℕ, String, Bool, Option, List, Dict}
use runn.Value.{Value, Fields, Cookie}
use runn.Errors.{Error, Result}
use runn.Trail.{RunnerType, Trails}
use runn.Result.{RunResult, StepResult}
use runn.Store.{Store}
use runn.Eval.{Lang}
use runn.Bind.{NodeParser}

-- The fields of `Loop` that the runner reads itself; the intervals are read by the backoff package.
pub record Loop : Type 0 where
  pub count : String
  pub until : String

pub record DumpRequest : Type 0 where
  pub expr : String
  pub out : String

pub record IncludeConfig : Type 0 where
  pub path : String
  pub vars : Fields
  pub skip_test : Bool
  pub force : Bool

-- A runner and its request are set together: the pair is one option.
pub record Step : Type 0 where
  pub key : String
  pub runner_key : String
  pub desc : String
  pub if_cond : String
  pub loop : Option Loop
  pub http_request : Option Fields
  pub db_query : Option Fields
  pub grpc_request : Option Fields
  pub cdp_actions : Option Fields
  pub ssh_command : Option Fields
  pub exec_command : Option Fields
  pub include_config : Option IncludeConfig
  pub dump_request : Option DumpRequest
  pub bind_cond : Option Fields
  pub test_cond : Option String

pub record Runbook : Type 0 where
  pub id : String
  pub desc : String
  pub labels : List String
  pub book_path : String
  pub steps : List Step
  pub use_map : Bool
  pub loop : Option Loop
  pub force : Bool
  pub included : Bool
  pub if_cond : String
  pub skip_test : Bool
  pub new_only : Bool
  -- the hooks, by number
  pub before_funcs : List ℕ
  pub after_funcs : List ℕ
  -- the trails of the step that includes this runbook
  pub parent : Trails

-- What a run writes into a step: its result, its round, and the run that it included.
pub record StepState : Type 0 where
  pub result : StepResult
  pub loop_index : Option ℕ
  pub included_run : RunResult

pub record Run : Type 0 where
  pub store : Store
  pub states : List StepState
  pub loop_index : Option ℕ
  pub skipped : Bool
  pub run_result : RunResult

-- What one of the runners http, db, grpc, cdp, ssh, exec or include does in a step: the cookies that
-- it records, with the time; the run that it included; and an error, or the map that it hands to
-- `record` once, as its last act.
pub record Reply : Type 0 where
  pub cookies : Option (ℕ × List Cookie)
  pub included_run : RunResult
  pub outcome : Result Fields

-- What stands outside of the model: the expression language, the environment, the runners that talk
-- to other systems, the output of the dump runner, the loop's back-off (false once the context is
-- done) and the hooks.
pub record World : Type 0 where
  pub lang : Lang
  pub node_parser : NodeParser
  pub env : Fields
  pub request : RunnerType → Run → ℕ → Reply
  pub dump : DumpRequest → Fields → Option Error
  pub continues : Run → ℕ → Bool
  pub hook : ℕ → RunResult → Option Error
