-- ===== src/Tests/OfSteps.antt =====
-- The theorems on steps, applied to the small runbook.
use runn.Common.{
  ◌≡◌, refl, ap, sym, some-injective, lookup, inl, Option, none, some, [], ◌∷◌, ◌++◌, arith,
}
use runn.Value.{text, end, field}
use runn.Errors.{Error, message}
use runn.Store.{Store}
use runn.Store.View.{view}
use runn.Operator.{Run}
use runn.Operator.Record.{set_result, record_not_run, record_value}
use runn.Operator.RunStep.{step_fn, run_step}
use runn.Operator.Internal.{run_internal, clear_run}
use runn.Operator.Fits.{Fits, Keeps}
use runn.Operator.Sequence.{record_value-view}
use runn.Operator.Frame.{IsClear, Open, Full, Moved}
use runn.Operator.Stages.{Done}
use runn.Operator.StepFn.{step_fn-Done}
use runn.Operator.StepRounds.{Begun}
use runn.Operator.StepEnds.{Ended, run_step-Ended}
use runn.Operator.Outcomes.{outcome_of_error}
use runn.Operator.Noting.{Resulted, set_result-Resulted, record_not_run-Full}
use runn.Operator.Conclusion.{Concluded}
use runn.Operator.Ending.{run_internal-Concluded}
use runn.Tests.{
  ping, small_book, small_world, small_keys, small-Runs, blank_store, first_run, safe_of,
  ping-Loops,
}

run_internal-Concluded_example :
    (e : Option Error) × (r : Run) × (run_internal small_world small_book first_run ≡ some (e, r))
    × Concluded small_book small_world (clear_run small_world small_book first_run) e r
run_internal-Concluded_example =
    run_internal-Concluded small_book small_world small_keys small-Runs first_run refl refl

blank-Fits : Fits small_book blank_store
unfolding view
blank-Fits = record {
  stored = record { distinct = tt; present = tt };
  mode = refl;
  keys = λ m. refl;
}

blank_view : view blank_store ≡ []
unfolding view
blank_view = refl

before_first : Begun small_book [] first_run
unfolding view
before_first = record { fits = blank-Fits; room = omega arith; seen = refl }

first-IsClear : IsClear 0 first_run
first-IsClear st h = ap (λ s. s.result) (sym (some-injective h))

run_step-Ended_example :
    (e : Option Error) × (r : Run) × (run_step small_world small_book 0 ping first_run
      ≡ some (e, r))
    × Ended small_book 0 [] first_run e r
run_step-Ended_example =
    run_step-Ended small_book 0 [] small_world first_run first-IsClear before_first small_keys ping
      (safe_of ping refl) ping-Loops refl

Open-first : Open small_book [] first_run
unfolding view
Open-first = record { fits = blank-Fits; room = omega arith; stale = end; seen = inl (refl, refl) }

step_fn-Done_example :
    (e : Option Error) × (r : Run) × (step_fn small_world small_book 0 ping first_run ≡ some (e, r))
    × Done small_book 0 first_run [] e r
step_fn-Done_example =
    step_fn-Done small_book 0 first_run [] small_keys small_world ping (safe_of ping refl)
      Open-first

record_value-view_example :
    (s : Store) × (record_value small_book (field "res" (text "pong") end) first_run
      ≡ some (record first_run { store = s }))
    × Fits small_book s
    × Keeps blank_store s
    × (view s ≡ [] ++ field "res" (text "pong") end ∷ [])
record_value-view_example =
    record_value-view small_book small_keys (field "res" (text "pong") end) first_run [] end
      blank-Fits (omega arith) (inl (blank_view, refl))

set_result-Resulted_example :
    (r : Run) × (set_result small_book 0 ping (some (message "no answer")) first_run ≡ some r)
    × Resulted small_book 0 (outcome_of_error (some (message "no answer"))) r
    × Moved 0 first_run r
    × (r.store ≡ first_run.store)
set_result-Resulted_example =
    set_result-Resulted small_book 0 ping (some (message "no answer")) first_run first-IsClear
      (omega arith)

-- A run whose first step has recorded.
abbrev one_store : Store
one_store = record blank_store { step_map_keys = "ping" ∷ []; step_map = ("ping", end) ∷ [] }

abbrev second_run : Run
second_run = record first_run { store = one_store }

one-Fits : Fits small_book one_store
unfolding view lookup
one-Fits = record {
  stored = record { distinct = (tt, tt); present = (refl, tt) };
  mode = refl;
  keys = λ m. refl;
}

one_view : view one_store ≡ end ∷ []
unfolding view lookup
one_view = refl

before_second : Begun small_book (end ∷ []) second_run
before_second = record { fits = one-Fits; room = omega arith; seen = one_view }

abbrev after_first : Full small_book [] second_run
after_first = record { fits = one-Fits; room = omega arith; fresh = end; seen = one_view }

record_not_run-Full_example :
    (s : Store) × (record_not_run small_book 1 second_run ≡ some (record second_run { store = s }))
    × Full small_book (end ∷ []) (record second_run { store = s })
    × (s.loop_index ≡ none)
record_not_run-Full_example =
    record_not_run-Full small_book 1 (end ∷ []) second_run small_keys refl refl (inl before_second)
