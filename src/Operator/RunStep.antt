-- ===== src/Operator/RunStep.antt =====
-- `runStep` of operator.go. The pause between steps and the debug output are left out.
use runn.Common.{
  ℕ, zero, suc, ◌+◌, String, ◌==◌, Bool, true, false, not, Option, none, some, if◌then◌else◌,
}
use runn.Common.Int.{to_rounds}
use runn.Errors.{Error, step_skipped, invalid_runner, failed_on, wrapped, not_true, Result, ok, err}
use runn.Store.Root.{to_map}
use runn.Eval.{eval_cond, eval_count}
use runn.Operator.{Loop, Step, Runbook, Run, World}
use runn.Operator.Exec.{Exec, ◌>>=◌, ◌>>◌, pure, return_with, Returned, function}
use runn.Operator.Record.{set_state, clear_result, request_type}
use runn.Operator.Runners.{step_store, run_test, run_dump, run_bind, run_request}

module _ (w : World) (b : Runbook) where
  -- The parts of `stepFn`; each has the variable `run`, and returns its new value.
  unfoldable pub request_part : ℕ → Step → Run → Exec Bool
  request_part i s = elim (request_type s) [
    | none ↦ pure false
    | some t ↦ run_request w b t i >> pure true
  ]

  unfoldable pub dump_part : ℕ → Step → Bool → Run → Exec Bool
  dump_part i s run = elim s.dump_request [
    | none ↦ pure run
    | some q ↦ run_dump w b i q (not run) >> pure true
  ]

  unfoldable pub bind_part : ℕ → Step → Bool → Run → Exec Bool
  bind_part i s run = elim s.bind_cond [
    | none ↦ pure run
    | some cond ↦ run_bind w b i cond (not run) >> pure true
  ]

  -- With `skipTest` the function returns here.
  unfoldable pub test_part : ℕ → Step → Bool → Run → Exec Bool
  test_part i s run = elim s.test_cond [
    | none ↦ pure run
    | some cond ↦
        if cond == ""
        then pure run
        else if b.skip_test
        then return_with (if run then none else some step_skipped)
        else (run_test w b i cond (not run) >> pure true)
  ]

  abbrev pub last_part : ℕ → Bool → Run → Exec (Option Error)
  last_part i run = pure (if run then none else some (invalid_runner i))

  -- `stepFn`
  unfoldable pub step_fn : ℕ → Step → Run → Returned
  unfolding request_part dump_part bind_part test_part
  step_fn i s r = function (
      (request_part i s >>= λ run₁. dump_part i s run₁ >>= λ run₂.
      bind_part i s run₂ >>= λ run₃. test_part i s run₃ >>= λ run₄. last_part i run₄)
        (set_state i clear_result r))

  -- `o.store.loopIndex = &jj; s.loopIndex = &jj`
  unfoldable pub set_round : ℕ → Option ℕ → Run → Run
  set_round i j r =
      set_state i (λ st. record st { loop_index = j })
        (record r { store = record r.store { loop_index = j } })

  -- `until:` after a round: the tree, and whether the loop is done.
  unfoldable pub check_until : Loop → Run → Result (String × Bool)
  check_until l r =
      let store = step_store w b false r in
      elim (w.lang.build_tree l.until store) [
        | err e ↦ err e
        | ok bt ↦ elim (eval_cond w.lang l.until store) [ err e ↦ err e | ok tf ↦ ok (bt, tf) ]
      ]

  -- The error of a loop whose condition has not come true.
  abbrev pub retry_failed : ℕ → Loop → String → Option Error
  retry_failed i l bt = some (failed_on "retry loop" i (not_true l.until bt))

  abbrev pub after_loop : ℕ → Loop → Bool → String → Run → Returned
  after_loop i l success bt r =
      if success
      then some (none, r)
      else some (retry_failed i l bt, record r { store = record r.store { loop_index = none } })

  -- The rounds from `j` on, of which `c - j` are left; `success` and `bt` are the variables of the
  -- loop. The loop ends by the back-off, by the count or by `until:`.
  unfoldable pub rounds : ℕ → Step → Loop → ℕ → ℕ → Bool → String → Run → Returned
  rounds i s l zero j success bt r = after_loop i l success bt r
  rounds i s l (suc left) j success bt r =
      if w.continues r j
      then elim (step_fn i s (set_round i (some j) r)) [
        | none ↦ none
        | some (some e, r') ↦ some (some (wrapped "loop failed" e), r')
        | some (none, r') ↦ elim (l.until == "") [
          | true ↦ rounds i s l left (j + 1) success bt r'
          | false ↦ elim (check_until l r') [
            | err e ↦ some (some (failed_on "loop" i e), r')
            | ok (bt', true) ↦ after_loop i l true bt' r'
            | ok (bt', false) ↦ rounds i s l left (j + 1) success bt' r'
          ]
        ]
      ]
      else after_loop i l success bt r

  abbrev pub end_rounds : ℕ → Returned → Returned
  end_rounds i none = none
  end_rounds i (some (e, r)) = some (e, set_round i none r)

  -- The loop of a step; the deferred function clears the loop indices.
  unfoldable pub step_loop : ℕ → Step → Loop → Run → Returned
  unfolding rounds set_round
  step_loop i s l r = elim (eval_count w.lang l.count (to_map w.env r.store)) [
    | err e ↦ end_rounds i (some (some e, r))
    | ok c ↦ end_rounds i (rounds i s l (to_rounds c) 0 (l.until == "") "" r)
  ]

  -- After the condition.
  unfoldable pub run_step_body : ℕ → Step → Run → Returned
  run_step_body i s r = elim s.loop [ none ↦ step_fn i s r | some l ↦ step_loop i s l r ]

  unfoldable pub run_step : ℕ → Step → Run → Returned
  unfolding run_step_body
  run_step i s r =
      if s.if_cond == ""
      then run_step_body i s r
      else elim (eval_cond w.lang s.if_cond (step_store w b true r)) [
        | err e ↦ some (some e, r)
        | ok true ↦ run_step_body i s r
        | ok false ↦ some (some step_skipped, r)
      ]
