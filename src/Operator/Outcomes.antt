-- ===== src/Operator/Outcomes.antt =====
-- The outcomes of the steps of a run: success, skipped or failure, and the courses that a run may
-- take. This is what the loop over the steps in `runInternal` promises.
use runn.Common.{
  ◌≡◌, refl, String, Bool, true, false, not, ◌&&◌, Option, none, some, List, [], ◌∷◌, ◌++◌,
  if◌then◌else◌, arith,
}
use runn.Errors.{Error, is_skip}
use runn.Result.{StepResult, no_step, step_result}

pub data Outcome : Type 0 where
  succeeded skipped failed : Outcome

-- The values of `stepResult` in operator.go.
abbrev pub outcome_name : Outcome → String
outcome_name succeeded = "success"
outcome_name skipped = "skipped"
outcome_name failed = "failure"

-- The outcome that an error of `runStep` stands for.
abbrev pub outcome_of_error : Option Error → Outcome
outcome_of_error none = succeeded
outcome_of_error (some e) = if is_skip (some e) then skipped else failed

abbrev pub outcome_of_parts : Bool → Option Error → Outcome
outcome_of_parts true e = skipped
outcome_of_parts false none = succeeded
outcome_of_parts false (some e) = failed

-- The outcome that a step's result reports.
abbrev pub outcome_of_result : StepResult → Option Outcome
outcome_of_result no_step = none
outcome_of_result (step_result id key desc skip e included elapsed) = some (outcome_of_parts skip e)

-- The courses of a run, step by step, with whether a step has failed: after a failure each step is
-- skipped, unless the run is forced.
pub data Course (force : Bool) : List Outcome → Bool → Type 0 where
  nothing : Course force [] false
  succeeds :
      {outs : List Outcome} {stop : Bool}
      → (stop && not force) ≡ false
      → Course force outs stop
      → Course force (outs ++ succeeded ∷ []) stop
  skips :
      {outs : List Outcome} {stop : Bool}
      → Course force outs stop
      → Course force (outs ++ skipped ∷ []) stop
  fails :
      {outs : List Outcome} {stop : Bool}
      → (stop && not force) ≡ false
      → Course force outs stop
      → Course force (outs ++ failed ∷ []) true

abbrev pub any_failed : List Outcome → Bool
any_failed [] = false
any_failed (failed ∷ outs) = true
any_failed (_ ∷ outs) = any_failed outs

any_failed-snoc :
    (outs : List Outcome) (o : Outcome)
    → any_failed (outs ++ o ∷ []) ≡ (if any_failed outs then true else any_failed (o ∷ []))
any_failed-snoc [] o = refl
any_failed-snoc (failed ∷ outs) o = refl
any_failed-snoc (succeeded ∷ outs) o = any_failed-snoc outs o
any_failed-snoc (skipped ∷ outs) o = any_failed-snoc outs o

-- The flag of a course says whether a step has failed.
pub Course-any_failed :
    {force stop : Bool} {outs : List Outcome} → Course force outs stop → stop ≡ any_failed outs
Course-any_failed nothing = refl
Course-any_failed (succeeds {outs} h c) =
    ground (arith, any_failed-snoc outs succeeded, Course-any_failed c)
Course-any_failed (skips {outs} c) =
    ground (arith, any_failed-snoc outs skipped, Course-any_failed c)
Course-any_failed (fails {outs} h c) =
    ground (arith, any_failed-snoc outs failed, Course-any_failed c)
