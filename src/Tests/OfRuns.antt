-- ===== src/Tests/OfRuns.antt =====
-- The run of the small runbook, from its start to its end.
use runn.Common.{◌≡◌, refl, Option, none, some, arith, get_elem?, lookup, insert, erase}
use runn.Value.Maps.{get, put, put_all, dict_of}
use runn.Errors.{Error}
use runn.Trail.{runbook_id}
use runn.Store
use runn.Store.{
  record_as_mapped, remove_latest_as_mapped, record_as_listed, store_length, previous, latest,
  clear_steps,
}
use runn.Store.Root.{to_map, steps_value}
use runn.Eval.{eval, eval_cond, eval_count}
use runn.Operator.{Run, StepState}
use runn.Operator.Record.{
  record_mapped, record_value, record_run, record_not_run, run_trails, request_type, runner_type,
  step_trails, new_result, set_result, set_state, step_results, show_run, record_to_latest,
}
use runn.Operator.Runners.{step_store, record_first, run_test, run_request}
use runn.Operator.RunStep.{
  request_part, dump_part, bind_part, test_part, step_fn, set_round, check_until, rounds, step_loop,
  run_step_body, run_step,
}
use runn.Operator.Internal.{
  record_outcome, note_skipped, note_step, step_round, run_steps, run_before_funcs, main_part,
  internal_body, run_after_funcs, finish, clear_run, run_internal,
}
use runn.Operator.Outcomes.{failed, skipped}
use runn.Operator.Noting.{Resulted}
use runn.Operator.Stops.{run_internal-stops}
use runn.Tests.{small_book, small_world, small_keys, small-Runs, first_run, blank_state}

-- Its second step fails, and its third is skipped.
abbrev run_of : Option (Option Error × Run) → Run
run_of none = first_run
run_of (some (e, r)) = r

abbrev error_of : Option (Option Error × Run) → Option Error
error_of none = none
error_of (some (e, r)) = e

abbrev state_of : Option StepState → StepState
state_of none = blank_state
state_of (some st) = st

abbrev final : Run
final = run_of (run_internal small_world small_book first_run)

final_is :
    run_internal small_world small_book first_run
    ≡ some (error_of (run_internal small_world small_book first_run), final)
unfolding run_internal clear_run finish run_after_funcs internal_body main_part run_before_funcs
    run_steps step_round note_step note_skipped record_outcome run_step run_step_body step_loop
    rounds step_fn set_round check_until request_part dump_part bind_part test_part run_request
    run_test step_store record_first record_to_latest show_run step_results set_state set_result
    new_result step_trails runner_type request_type run_trails record_not_run record_run
    record_value record_mapped Store.record_to_latest record_as_mapped remove_latest_as_mapped
    store_length previous latest clear_steps to_map steps_value eval_cond eval_count eval get put
    put_all dict_of runbook_id lookup insert erase
final_is = refl

second-Resulted : Resulted small_book 1 failed final
unfolding run_internal clear_run finish run_after_funcs internal_body main_part run_before_funcs
    run_steps step_round note_step note_skipped record_outcome run_step run_step_body step_loop
    rounds step_fn set_round check_until request_part dump_part bind_part test_part run_request
    run_test step_store record_first record_to_latest show_run step_results set_state set_result
    new_result step_trails runner_type request_type run_trails record_not_run record_run
    record_value record_mapped Store.record_to_latest record_as_mapped remove_latest_as_mapped
    store_length previous latest clear_steps to_map steps_value eval_cond eval_count eval get put
    put_all dict_of runbook_id lookup insert erase
second-Resulted = (state_of (get_elem? final.states 1), refl, refl)

run_internal-stops_example : Resulted small_book 2 skipped final
run_internal-stops_example =
    run_internal-stops small_book small_world small_keys small-Runs first_run refl refl refl
      (error_of (run_internal small_world small_book first_run)) final final_is 1 2 (omega arith)
      (omega arith) second-Resulted
