-- ===== src/Result/Simplified.antt =====
-- `HasFailure`, `simplify` and the simplified results of result.go. A panic at a step without a result
-- is `none`.
use runn.Common.{
  ℕ, suc, ◌+◌, String, ◌≡◌, refl, ap, ◌∙◌, Bool, true, false, Option, none, some, List, [], ◌∷◌,
  length, arith, ltb, ◌||◌, ◌≢◌, All,
}
use runn.Errors.{Error}
use runn.Value.{Fields}
use runn.Result.{RunResult, no_run, run_result, no_step, step_result, StepResults, nil, cons}
use runn.Result.Failures.{IsComplete, AreComplete, HasResult}

-- `result`
pub data Verdict : Type 0 where
  success failure skipped : Verdict

-- The labels are never set, and are left out; the fields are ID, path, result, steps and elapsed time
-- of a run, and ID, key, result, included run and elapsed time of a step.
mutual
  pub data SimpleRun : Type 0 where
    no_simple_run : SimpleRun
    simple_run : String → String → Verdict → SimpleSteps → ℕ → SimpleRun

  pub data SimpleSteps : Type 0 where
    simple_nil : SimpleSteps
    simple_cons : String → String → Verdict → SimpleRun → ℕ → SimpleSteps → SimpleSteps

abbrev pub verdict : Option Error → Bool → Verdict
verdict (some e) skip = failure
verdict none true = skipped
verdict none false = success

abbrev with_steps : String → String → Verdict → ℕ → Option SimpleSteps → Option SimpleRun
with_steps id path v elapsed none = none
with_steps id path v elapsed (some steps) = some (simple_run id path v steps elapsed)

abbrev with_rest :
    String → String → Verdict → ℕ → Option SimpleRun → Option SimpleSteps → Option SimpleSteps
with_rest id key v elapsed (some included) (some rest) =
    some (simple_cons id key v included elapsed rest)
with_rest id key v elapsed _ _ = none

abbrev pub is_failure : Verdict → Bool
is_failure failure = true
is_failure _ = false

unfoldable mutual
  pub simplify_run_result : RunResult → Option SimpleRun
  simplify_run_result no_run = some no_simple_run
  simplify_run_result (run_result id desc labels path skip e steps store elapsed) =
      with_steps id path (verdict e skip) elapsed (simplify_step_results steps)

  pub simplify_step_results : StepResults → Option SimpleSteps
  simplify_step_results nil = some simple_nil
  simplify_step_results (cons no_step steps) = none
  simplify_step_results (cons (step_result id key desc skip e included elapsed) steps) =
      with_rest id key (verdict e skip) elapsed (simplify_run_result included)
        (simplify_step_results steps)

pub record Simplified : Type 0 where
  pub total : ℕ
  pub success : ℕ
  pub failure : ℕ
  pub skipped : ℕ
  pub results : List SimpleRun

-- A run result of `runN` is never nil: a nil one panics here.
abbrev verdict_of : RunResult → Option Verdict
verdict_of no_run = none
verdict_of (run_result id desc labels path skip e steps store elapsed) = some (verdict e skip)

abbrev count_verdict : Verdict → Simplified → Simplified
count_verdict success s = record s { success = s.success + 1 }
count_verdict failure s = record s { failure = s.failure + 1 }
count_verdict skipped s = record s { skipped = s.skipped + 1 }

abbrev add_result : Option Verdict → Option SimpleRun → Option Simplified → Option Simplified
add_result (some v) (some r) (some s) =
    some (count_verdict v (record s { results = r ∷ s.results }))
add_result _ _ _ = none

-- The loop of `simplify`; the counts do not depend on the order in which it goes.
unfoldable pub simplify : ℕ → List RunResult → Option Simplified
simplify total [] =
    some (record { total = total; success = 0; failure = 0; skipped = 0; results = [] })
simplify total (r ∷ l) = add_result (verdict_of r) (simplify_run_result r) (simplify total l)

-- The loop stops at the first failure; a nil result before it panics.
unfoldable pub has_failure : List RunResult → Option Bool
has_failure [] = some false
has_failure (no_run ∷ l) = none
has_failure (run_result id desc labels path skip (some e) steps store elapsed ∷ l) = some true
has_failure (run_result id desc labels path skip none steps store elapsed ∷ l) = has_failure l

-- The counts of the simplified results of runs, of which `failing` says whether one has failed.
pub record Counts (total runs : ℕ) (failing : Bool) (s : Simplified) : Type 0 where
  pub total_kept : s.total ≡ total
  pub counted : s.success + s.failure + s.skipped ≡ runs
  pub listed : length s.results ≡ runs
  pub failures : ltb 0 s.failure ≡ failing

count_verdict-Counts :
    (v : Verdict) (r : SimpleRun) (s : Simplified) (total runs : ℕ) (failing : Bool)
    → Counts total runs failing s
    → Counts total
        (suc runs)
        (is_failure v || failing)
        (count_verdict v (record s { results = r ∷ s.results }))
count_verdict-Counts success r s total runs failing c = record {
  total_kept = c.total_kept;
  counted = omega (arith, c.counted);
  listed = ap suc c.listed;
  failures = c.failures;
}
count_verdict-Counts failure r s total runs failing c = record {
  total_kept = c.total_kept;
  counted = omega (arith, c.counted);
  listed = ap suc c.listed;
  failures = ground arith;
}
count_verdict-Counts skipped r s total runs failing c = record {
  total_kept = c.total_kept;
  counted = omega (arith, c.counted);
  listed = ap suc c.listed;
  failures = c.failures;
}

unfoldable mutual
  unfolding simplify_run_result simplify_step_results IsComplete AreComplete HasResult

  run_simplified :
      (r : RunResult) → IsComplete r → (x : SimpleRun) × (simplify_run_result r ≡ some x)
  run_simplified no_run c = (no_simple_run, refl)
  run_simplified (run_result id desc labels path skip e steps store elapsed) c =
      let (x, found) = steps_simplified steps c in
      (
        simple_run id path (verdict e skip) x elapsed,
        ap (with_steps id path (verdict e skip) elapsed) found,
      )

  steps_simplified :
      (steps : StepResults)
      → AreComplete steps
      → (x : SimpleSteps) × (simplify_step_results steps ≡ some x)
  steps_simplified nil c = (simple_nil, refl)
  steps_simplified (cons no_step steps) (c, d) = absurd c
  steps_simplified (cons (step_result id key desc skip e included elapsed) steps) (c, d) =
      let (x, found) = run_simplified included c in
      let (y, also) = steps_simplified steps d in
      (
        simple_cons id key (verdict e skip) x elapsed y,
        ap (λ x. with_rest id key (verdict e skip) elapsed x (simplify_step_results steps)) found
            ∙ ap (with_rest id key (verdict e skip) elapsed (some x)) also,
      )

abbrev fails_or : Option Error → Option Bool → Option Bool
fails_or none rest = rest
fails_or (some e) rest = some true

with_verdict :
    (e : Option Error) (skip : Bool) (x : SimpleRun) (s : Simplified) (total runs : ℕ)
    (failing : Bool) (o : Option Bool)
    → o ≡ some failing
    → Counts total runs failing s
    → (now : Bool) × (fails_or e o ≡ some now)
      × Counts total
          (suc runs)
          now
          (count_verdict (verdict e skip) (record s { results = x ∷ s.results }))
with_verdict none true x s total runs failing o h k =
    (failing, h, count_verdict-Counts skipped x s total runs failing k)
with_verdict none false x s total runs failing o h k =
    (failing, h, count_verdict-Counts success x s total runs failing k)
with_verdict (some e) skip x s total runs failing o h k =
    (true, refl, count_verdict-Counts failure x s total runs failing k)

has_failure-cons :
    (id desc : String) (labels : List String) (path : String) (skip : Bool) (e : Option Error)
    (steps : StepResults) (store : Fields) (elapsed : ℕ) (l : List RunResult)
    → has_failure (run_result id desc labels path skip e steps store elapsed ∷ l)
      ≡ fails_or e (has_failure l)
unfolding has_failure
has_failure-cons id desc labels path skip none steps store elapsed l = refl
has_failure-cons id desc labels path skip (some e) steps store elapsed l = refl

-- For results of runs that are there, and in which each step has a result down to the included runs,
-- neither `simplify` nor `HasFailure` panics: `simplify` keeps the total, gives a result for each run,
-- counts each run once as a success, a failure or skipped, and counts a failure if and only if
-- `HasFailure` returns true.
pub simplify-Counts :
    (total : ℕ) (l : List RunResult)
    → All (λ (r : RunResult). (r ≢ no_run) × IsComplete r) l
    → (s : Simplified) × (failing : Bool) × (simplify total l ≡ some s)
      × (has_failure l ≡ some failing)
      × Counts total (length l) failing s
unfolding simplify has_failure
simplify-Counts total [] all = (
  record { total = total; success = 0; failure = 0; skipped = 0; results = [] },
  false,
  refl,
  refl,
  record { total_kept = refl; counted = refl; listed = refl; failures = refl },
)
simplify-Counts total (no_run ∷ l) ((there, _), all) = absurd (there refl)
simplify-Counts total (run_result id desc labels path skip e steps store elapsed ∷ l)
      ((there, c), all) =
    let (x, found) = run_simplified (run_result id desc labels path skip e steps store elapsed) c in
    let (s, failing, rest, told, counts) = simplify-Counts total l all in
    let (now, told_now, counts_now) =
      with_verdict e skip x s total (length l) failing (has_failure l) told counts in
    (
      count_verdict (verdict e skip) (record s { results = x ∷ s.results }),
      now,
      ap (λ x. add_result (some (verdict e skip)) x (simplify total l)) found
          ∙ ap (add_result (some (verdict e skip)) (some x)) rest,
      has_failure-cons id desc labels path skip e steps store elapsed l ∙ told_now,
      counts_now,
    )
