-- ===== src/Operator/Internal.antt =====
-- `runInternal` of operator.go: one run of all steps, with `skip`, `clearResult` and the hooks.
use runn.Common.{
  ℕ, suc, String, ◌==◌, Bool, true, false, not, ◌&&◌, Option, none, some, List, [], ◌∷◌,
  if◌then◌else◌, map,
}
use runn.Value.{text, Fields, end}
use runn.Errors.{Error, step_skipped, before_func, after_func, is_skip, append_error, ok, err}
use runn.Trail.{runbook_id}
use runn.Result.{RunResult, no_run, run_result, nil}
use runn.Store.{clear_steps}
use runn.Store.Root.{to_map}
use runn.Eval.{eval_cond}
use runn.Operator.{Step, Runbook, Run, World}
use runn.Operator.Exec.{
  Exec, returns, goes_on, ◌>>=◌, ◌>>◌, pure, change, modify, Returned, function, call,
}
use runn.Operator.Record.{
  record_not_run, set_result, clear_result, step_results, record_to_latest, run_trails,
}
use runn.Operator.Runners.{step_store}
use runn.Operator.RunStep.{run_step}

module _ (w : World) (b : Runbook) where
  -- `if err := o.recordToLatest(storeStepKeyOutcome, …); err != nil { return err }`
  unfoldable pub record_outcome : String → Run → Exec (Unit {0})
  record_outcome result r =
      let (e, r') = record_to_latest b "outcome" (text result) r in
      elim e [ some x ↦ returns (some x) r' | none ↦ goes_on tt r' ]

  -- What becomes of a step that is skipped: by `skip`, after a failure, or by its own condition.
  unfoldable pub note_skipped : ℕ → Step → Run → Exec (Unit {0})
  unfolding record_outcome
  note_skipped i s =
      change (set_result b i s (some step_skipped))
      >> (change (record_not_run b i) >> record_outcome "skipped")

  -- After `runStep`: the error so far, and whether a step has failed.
  unfoldable pub note_step :
      ℕ → Step → Option Error → Option Error → Bool → Run → Exec (Option Error × Bool)
  unfolding record_outcome
  note_step i s none rerr failed =
      change (set_result b i s none) >> (record_outcome "success" >> pure (rerr, failed))
  note_step i s (some e) rerr failed =
      if is_skip (some e)
      then change (set_result b i s (some e))
        >> (change (record_not_run b i) >> (record_outcome "skipped" >> pure (rerr, failed)))
      else change (set_result b i s (some e))
        >> (change (record_not_run b i)
            >> (record_outcome "failure" >> pure (some (append_error rerr e), true)))

  -- One round of the loop over the steps.
  unfoldable pub step_round : ℕ → Step → Option Error → Bool → Run → Exec (Option Error × Bool)
  unfolding note_skipped note_step
  step_round i s rerr failed =
      if failed && not b.force
      then note_skipped i s >> pure (rerr, failed)
      else call (run_step w b i s) >>= λ e. note_step i s e rerr failed

  -- The loop over the steps from `i` on.
  unfoldable pub run_steps : ℕ → List Step → Option Error → Bool → Run → Exec (Option Error)
  unfolding step_round
  run_steps i [] rerr failed = pure rerr
  run_steps i (s ∷ steps) rerr failed =
      step_round i s rerr failed >>= λ (rerr', failed'). run_steps (suc i) steps rerr' failed'

  unfoldable pub skip_steps : ℕ → List Step → Run → Exec (Unit {0})
  unfolding note_skipped
  skip_steps i [] = pure tt
  skip_steps i (s ∷ steps) = note_skipped i s >> skip_steps (suc i) steps

  -- `skip`
  unfoldable pub skip : Run → Exec (Unit {0})
  unfolding skip_steps
  skip = modify (λ r. record r { skipped = true }) >> skip_steps 0 b.steps

  unfoldable pub run_before_funcs : List ℕ → Run → Exec (Unit {0})
  run_before_funcs [] r = goes_on tt r
  run_before_funcs (fn ∷ fns) r = elim (w.hook fn r.run_result) [
    | some e ↦ returns (some (before_func e)) r
    | none ↦ run_before_funcs fns r
  ]

  abbrev show_store : Fields → RunResult → RunResult
  show_store store no_run = no_run
  show_store store (run_result id desc labels path skipped e results _ elapsed) =
      run_result id desc labels path skipped e results store elapsed

  unfoldable pub main_part : Run → Exec (Option Error)
  unfolding run_before_funcs run_steps
  main_part =
      modify (λ r. record r { run_result = show_store (to_map w.env r.store) r.run_result })
      >> (run_before_funcs b.before_funcs >> run_steps 0 b.steps none false)

  -- The body, up to the deferred function.
  unfoldable pub internal_body : Run → Exec (Option Error)
  unfolding skip main_part
  internal_body r =
      if b.if_cond == ""
      then main_part r
      else elim (eval_cond w.lang b.if_cond (step_store w b true r)) [
        | err e ↦ returns (some e) r
        | ok true ↦ main_part r
        | ok false ↦ (skip >> pure none) r
      ]

  abbrev set_error : Option Error → RunResult → RunResult
  set_error e no_run = no_run
  set_error e (run_result id desc labels path skipped _ results store elapsed) =
      run_result id desc labels path skipped e results store elapsed

  unfoldable pub run_after_funcs : List ℕ → Option Error → Run → Option Error × Run
  run_after_funcs [] rerr r = (rerr, r)
  run_after_funcs (fn ∷ fns) rerr r = elim (w.hook fn r.run_result) [
    | none ↦ run_after_funcs fns rerr r
    | some e ↦
        run_after_funcs fns (some (after_func e))
          (record r { run_result = set_error (some (after_func e)) r.run_result })
  ]

  abbrev finish_result : Option Error → Run → RunResult → RunResult
  finish_result e r no_run = no_run
  finish_result e r (run_result id desc labels path _ _ _ _ elapsed) =
      run_result id desc labels path r.skipped e (step_results r.states) (to_map w.env r.store)
        elapsed

  -- The deferred function: the result, and the after hooks unless the run was skipped.
  unfoldable pub finish : Option Error → Run → Option Error × Run
  unfolding run_after_funcs
  finish rerr r =
      let r' = record r { run_result = finish_result rerr r r.run_result } in
      if r.skipped then (rerr, r') else run_after_funcs b.after_funcs rerr r'

  abbrev path_or_id : String
  path_or_id = if b.book_path == "" then b.id else b.book_path

  -- `clearResult` and `clearSteps`
  unfoldable pub clear_run : Run → Run
  clear_run r = record r {
    run_result =
        run_result (runbook_id (run_trails b r)) b.desc b.labels path_or_id false none nil end 0;
    states = map clear_result r.states;
    store = clear_steps r.store;
  }

  unfoldable pub run_internal : Run → Returned
  unfolding internal_body finish clear_run
  run_internal r = elim (function (internal_body (clear_run r))) [
    | none ↦ none
    | some (e, r') ↦ some (finish e r')
  ]
