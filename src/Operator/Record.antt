-- ===== src/Operator/Record.antt =====
-- `record`, `recordNotRun` and `recordToLatest` of operator.go, with `setResult`, `clearResult` and
-- the trails of step.go.
use runn.Common.{
  ℕ, ◌+◌, ◌-◌, String, Bool, true, false, Option, none, some, List, [], ◌∷◌, ◌++◌, eqb, ltb, ◌==◌,
  get_elem?, set, take, if◌then◌else◌,
}
use runn.Value.{Value, bool, Fields, end}
use runn.Value.Maps.{put, or_else}
use runn.Errors.{Error, failed_to_record, is_skip}
use runn.Trail.{
  RunnerType, http, db, grpc, cdp, ssh, exec, include, dump, bind, test, Trails, runbook_trail,
  step_trail, loop_trail, runbook_id,
}
use runn.Result.{
  RunResult, no_run, run_result, StepResult, no_step, step_result, StepResults, nil, cons,
}
use runn.Store
use runn.Store.{Store, record_as_listed, record_as_mapped, remove_latest_as_mapped, store_length}
use runn.Operator.{Step, Runbook, StepState, Run}

-- `*o.store.loopIndex > 0`, if it is set
abbrev pub is_later_round : Option ℕ → Bool
is_later_round none = false
is_later_round (some j) = ltb 0 j

abbrev pub with_store : Run → Option Store → Option Run
with_store r none = none
with_store r (some s) = some (record r { store = s })

-- The latest record of the previous round goes away before this round's is written. The slice
-- `[:length-1]` panics at length 0.
unfoldable pub record_listed : Run → Fields → Option Run
record_listed r v =
    let s = r.store in
    if is_later_round s.loop_index
    then if eqb (store_length s) 0
      then none
      else with_store r
          (record_as_listed (record s { steps = take (store_length s - 1) s.steps }) v)
    else with_store r (record_as_listed s v)

-- `o.steps[o.store.length()].key` panics out of range.
abbrev pub record_at_key : Option Step → Store → Fields → Option Store
record_at_key none s v = none
record_at_key (some step) s v = record_as_mapped s step.key v

abbrev loop_trails : Option ℕ → Trails
loop_trails none = []
loop_trails (some j) = loop_trail j ∷ []

module _ (b : Runbook) where
  abbrev pub record_next : Run → Option Store → Fields → Option Run
  record_next r none v = none
  record_next r (some s) v = with_store r (record_at_key (get_elem? b.steps (store_length s)) s v)

  unfoldable pub record_mapped : Run → Fields → Option Run
  record_mapped r v =
      let s = r.store in
      record_next r (if is_later_round s.loop_index then remove_latest_as_mapped s else some s) v

  unfoldable pub record_value : Fields → Run → Option Run
  record_value v r = if b.use_map then record_mapped r v else record_listed r v

  -- `record`; a nil map is recorded as an empty one.
  unfoldable pub record_run : Fields → Run → Option Run
  record_run v r = record_value (put "run" (bool true) v) r

  unfoldable pub record_not_run : ℕ → Run → Option Run
  record_not_run i r =
      if eqb (store_length r.store) (i + 1)
      then some r
      else record_value (put "run" (bool false) end) r

  unfoldable pub run_trails : Run → Trails
  run_trails r = b.parent ++ runbook_trail b.desc b.id b.book_path ∷ loop_trails r.loop_index

abbrev mark {ℓ} : {A : Type ℓ} → Option A → RunnerType → Option RunnerType → Option RunnerType
mark none t rest = rest
mark (some _) t rest = some t

abbrev mark_test : Option String → Option RunnerType
mark_test none = none
mark_test (some cond) = if cond == "" then none else some test

-- The first seven cases of `generateTrail`, which are those of the switch in `runStep`.
unfoldable pub request_type : Step → Option RunnerType
request_type s = mark s.http_request http (
    mark s.db_query db (
      mark s.grpc_request grpc (
        mark s.cdp_actions cdp (
          mark s.ssh_command ssh (mark s.exec_command exec (mark s.include_config include none))))))

unfoldable pub runner_type : Step → Option RunnerType
unfolding request_type
runner_type s =
    or_else (request_type s)
      (mark s.dump_request dump (mark s.bind_cond bind (mark_test s.test_cond)))

abbrev state_round : Option StepState → Option ℕ
state_round none = none
state_round (some st) = st.loop_index

abbrev state_included : Option StepState → RunResult
state_included none = no_run
state_included (some st) = st.included_run

abbrev included_of : Step → Option StepState → RunResult
included_of s st = elim s.include_config [ none ↦ no_run | some _ ↦ state_included st ]

module _ (b : Runbook) where
  unfoldable pub step_trails : ℕ → Step → Run → Trails
  unfolding run_trails runner_type
  step_trails i s r =
      run_trails b r
      ++ step_trail s.desc i s.key (runner_type s) s.runner_key
        ∷ loop_trails (state_round (get_elem? r.states i))

  -- The new value of `s.result`: a skip is no error.
  unfoldable pub new_result : ℕ → Step → Option Error → Run → StepResult
  unfolding step_trails
  new_result i s e r =
      step_result (runbook_id (step_trails i s r)) s.key s.desc (is_skip e)
        (if is_skip e then none else e) (included_of s (get_elem? r.states i)) 0

  abbrev pub write_result : ℕ → StepResult → Option StepState → Run → Option Run
  write_result i result none r = none
  write_result i result (some st) r = elim st.result [
    | no_step ↦ some (record r { states = set r.states i (record st { result = result }) })
    | _ ↦ none
  ]

  -- A second result panics.
  unfoldable pub set_result : ℕ → Step → Option Error → Run → Option Run
  unfolding new_result
  set_result i s e r = write_result i (new_result i s e r) (get_elem? r.states i) r

-- A change of the state of step `i`.
unfoldable pub set_state : ℕ → (StepState → StepState) → Run → Run
set_state i f r = elim (get_elem? r.states i) [
  | none ↦ r
  | some st ↦ record r { states = set r.states i (f st) }
]

abbrev pub clear_result : StepState → StepState
clear_result st = record st { result = no_step }

unfoldable pub step_results : List StepState → StepResults
step_results [] = nil
step_results (st ∷ l) = cons st.result (step_results l)

abbrev show_results : String → StepResults → RunResult → RunResult
show_results id results no_run = no_run
show_results id results (run_result _ desc labels path skipped e _ store elapsed) =
    run_result id desc labels path skipped e results store elapsed

-- The run with the results so far in its result.
unfoldable pub show_run : Runbook → Run → Run
unfolding run_trails step_results
show_run b r = record r {
  run_result = show_results (runbook_id (run_trails b r)) (step_results r.states) r.run_result;
}

-- `recordToLatest`, with the result that it shows to the capturers; the error, if any, and the run.
unfoldable pub record_to_latest : Runbook → String → Value → Run → Option Error × Run
unfolding show_run
record_to_latest b key value r = elim (Store.record_to_latest r.store key value) [
  | none ↦ (some failed_to_record, show_run b r)
  | some s ↦ (none, record (show_run b r) { store = s })
]
