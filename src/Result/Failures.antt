-- ===== src/Result/Failures.antt =====
-- `failedRunbookPathsAndErrors` of result.go: which runbooks have failed, at which step and why. A
-- panic at a step without a result is `none`.
use runn.Common.{ℕ, ◌+◌, String, ◌≡◌, Option, none, some, List, [], ◌∷◌, ◌++◌, map, length, All}
use runn.Common.Int.{ℤ, pos, negsuc}
use runn.Errors.{Error}
use runn.Result.{
  RunResult, no_run, run_result, StepResult, no_step, step_result, StepResults, nil, cons,
}

-- The three slices that the function returns.
pub record Failures : Type 0 where
  pub paths : List (List String)
  pub indexes : List ℤ
  pub errs : List Error

abbrev pub no_failures : Failures
no_failures = record { paths = []; indexes = []; errs = [] }

abbrev pub one_failure : String → ℤ → Error → Failures
one_failure path i e = record { paths = (path ∷ []) ∷ []; indexes = i ∷ []; errs = e ∷ [] }

-- `g` is appended behind `f`.
abbrev pub join_failures : Failures → Failures → Failures
join_failures f g = record {
  paths = f.paths ++ g.paths;
  indexes = f.indexes ++ g.indexes;
  errs = f.errs ++ g.errs;
}

abbrev pub under : String → Failures → Failures
under path f = record { paths = map (λ p. path ∷ p) f.paths; indexes = f.indexes; errs = f.errs }

abbrev pub join_found : Option Failures → Option Failures → Option Failures
join_found (some f) (some g) = some (join_failures f g)
join_found _ _ = none

-- A runbook that has failed outside of its steps.
abbrev pub or_itself : String → Error → Option Failures → Option Failures
or_itself path e none = none
or_itself path e (some f) = elim f.paths [ [] ↦ some (one_failure path (negsuc 0) e) | _ ↦ some f ]

abbrev pub in_included : String → Option Failures → Option Failures
in_included path none = none
in_included path (some f) = some (under path f)

unfoldable mutual
  -- A nil pointer is not followed: the callers check for it.
  pub failed_paths_and_errors : RunResult → Option Failures
  failed_paths_and_errors no_run = none
  failed_paths_and_errors (run_result id desc labels path skipped none steps store elapsed) =
      some no_failures
  failed_paths_and_errors (run_result id desc labels path skipped (some e) steps store elapsed) =
      or_itself path e (failed_steps path 0 steps)

  -- The loop, from step `i` on.
  pub failed_steps : String → ℕ → StepResults → Option Failures
  failed_steps path i nil = some no_failures
  failed_steps path i (cons s steps) =
      join_found (failed_step path i s) (failed_steps path (i + 1) steps)

  pub failed_step : String → ℕ → StepResult → Option Failures
  failed_step path i no_step = none
  failed_step path i (step_result id key desc skipped none included elapsed) = some no_failures
  failed_step path i (step_result id key desc skipped (some e) no_run elapsed) =
      some (one_failure path (pos i) e)
  failed_step path i
        (step_result id key desc skipped (some e) (run_result a b c d f g h j k) elapsed) =
      in_included path (failed_paths_and_errors (run_result a b c d f g h j k))

-- Every step has a result, down to the included runs.
unfoldable mutual
  pub IsComplete : RunResult → Type 0
  IsComplete no_run = Unit
  IsComplete (run_result id desc labels path skipped e steps store elapsed) = AreComplete steps

  pub AreComplete : StepResults → Type 0
  AreComplete nil = Unit
  AreComplete (cons s steps) = HasResult s × AreComplete steps

  pub HasResult : StepResult → Type 0
  HasResult no_step = ⊥
  HasResult (step_result id key desc skipped e included elapsed) = IsComplete included

-- The slices go together, and each path starts at the runbook.
pub record Listed (path : String) (f : Failures) : Type 0 where
  pub indexes : length f.indexes ≡ length f.paths
  pub errs : length f.errs ≡ length f.paths
  pub rooted : All (λ (p : List String). (rest : List String) × (p ≡ path ∷ rest)) f.paths
