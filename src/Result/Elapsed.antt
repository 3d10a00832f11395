-- ===== src/Result/Elapsed.antt =====
-- `setElaspedByRunbookIDFull` of operator.go: the times that the profile has measured, by ID, go into
-- the results.
use runn.Common.{ℕ, none, some, Dict, lookup}
use runn.Result.{
  RunResult, no_run, run_result, StepResult, no_step, step_result, StepResults, nil, cons,
}

-- A part of the results without a measured time stays as it is, with all that it includes.
unfoldable mutual
  pub set_elapsed : Dict ℕ → RunResult → RunResult
  set_elapsed m no_run = no_run
  set_elapsed m (run_result id desc labels path skipped e steps store elapsed) =
      elim (lookup id m) [
        | none ↦ run_result id desc labels path skipped e steps store elapsed
        | some t ↦ run_result id desc labels path skipped e (set_steps m steps) store t
      ]

  pub set_steps : Dict ℕ → StepResults → StepResults
  set_steps m nil = nil
  set_steps m (cons s steps) = cons (set_step m s) (set_steps m steps)

  pub set_step : Dict ℕ → StepResult → StepResult
  set_step m no_step = no_step
  set_step m (step_result id key desc skipped e included elapsed) = elim (lookup id m) [
    | none ↦ step_result id key desc skipped e included elapsed
    | some t ↦ step_result id key desc skipped e (set_elapsed m included) t
  ]
