-- ===== src/Result.antt =====
-- result.go: the results of runs and of their steps.
pub mod Failures
pub mod Listing
pub mod Simplified
pub mod Elapsed
use runn.Common.{ℕ, String, Bool, Option, List}
use runn.Errors.{Error}
use runn.Value.{Fields}

-- `nil` pointers are the constructors `no_run` and `no_step`. The fields of `RunResult` are ID,
-- description, labels, path, skipped, error, step results, store and elapsed time; those of
-- `StepResult` are ID, key, description, skipped, error, included run and elapsed time.
mutual
  pub data RunResult : Type 0 where
    no_run : RunResult
    run_result :
        String
        → String
        → List String
        → String
        → Bool
        → Option Error
        → StepResults
        → Fields
        → ℕ
        → RunResult

  pub data StepResult : Type 0 where
    no_step : StepResult
    step_result : String → String → String → Bool → Option Error → RunResult → ℕ → StepResult

  pub data StepResults : Type 0 where
    nil : StepResults
    cons : StepResult → StepResults → StepResults
