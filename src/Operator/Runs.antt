-- ===== src/Operator/Runs.antt =====
-- `runLoop` and `run` of operator.go, outside of a Go test. The profile and the renewal of the CDP
-- runners between rounds are left out.
use runn.Common.{
  ℕ, zero, suc, ◌+◌, String, ◌==◌, Bool, true, false, Option, none, some, if◌then◌else◌,
}
use runn.Common.Int.{to_rounds}
use runn.Value.{text}
use runn.Value.Maps.{put}
use runn.Errors.{
  Error, not_allowed_to_run, not_true, wrapped, in_round, append_error, Result, ok, err,
}
use runn.Store.Root.{to_map}
use runn.Eval.{eval_cond, eval_count}
use runn.Operator.{Loop, Runbook, Run, World}
use runn.Operator.Exec.{Returned}
use runn.Operator.Internal.{run_internal}

module _ (w : World) (b : Runbook) where
  -- The outcome of a round.
  unfoldable pub round_outcome : Option Error → Run → String
  round_outcome (some e) r = "failure"
  round_outcome none r = if r.skipped then "skipped" else "success"

  abbrev pub add_error : ℕ → Option Error → Option Error → Option Error
  add_error j none looperr = looperr
  add_error j (some e) looperr = some (append_error looperr (in_round j e))

  unfoldable pub check_run_until : Loop → String → Run → Result (String × Bool)
  check_run_until l outcome r =
      let store = put "outcome" (text outcome) (to_map w.env r.store) in
      elim (w.lang.build_tree l.until store) [
        | err e ↦ err e
        | ok bt ↦ elim (eval_cond w.lang l.until store) [ err e ↦ err e | ok tf ↦ ok (bt, tf) ]
      ]

  -- After the loop: an `until:` that never came true fails, and without `until:` the errors of the
  -- rounds count.
  unfoldable pub after_run_loop : Loop → Bool → String → Option Error → Run → Returned
  after_run_loop l success bt looperr r =
      if success
      then if l.until == ""
        then elim looperr [
          | none ↦ some (none, r)
          | some e ↦ some (some (wrapped "loop failed" e), r)
        ]
        else some (none, r)
      else some (some (wrapped "retry loop failed" (not_true l.until bt)), r)

  unfoldable pub run_rounds : Loop → ℕ → ℕ → Bool → String → Option Error → Run → Returned
  unfolding round_outcome
  run_rounds l zero j success bt looperr r = after_run_loop l success bt looperr r
  run_rounds l (suc left) j success bt looperr r =
      if w.continues r j
      then elim (run_internal w b (record r { loop_index = some j })) [
        | none ↦ none
        | some (e, r') ↦ elim (l.until == "") [
          | true ↦ run_rounds l left (j + 1) success bt (add_error j e looperr) r'
          | false ↦ elim (check_run_until l (round_outcome e r') r') [
            | err x ↦ some (some (wrapped "loop failed" x), r')
            | ok (bt', true) ↦ after_run_loop l true bt' (add_error j e looperr) r'
            | ok (bt', false) ↦ run_rounds l left (j + 1) success bt' (add_error j e looperr) r'
          ]
        ]
      ]
      else after_run_loop l success bt looperr r

  unfoldable pub run_loop : Loop → Run → Returned
  unfolding run_rounds
  run_loop l r = elim (eval_count w.lang l.count (to_map w.env r.store)) [
    | err e ↦ some (some e, r)
    | ok c ↦ run_rounds l (to_rounds c) 0 (l.until == "") "" none r
  ]

  abbrev pub name_error : Returned → Returned
  name_error none = none
  name_error (some (none, r)) = some (none, r)
  name_error (some (some e, r)) = some (some (wrapped "failed to run" e), r)

  -- The runs outside of a Go test, with the error named.
  unfoldable pub run_without_test : Run → Returned
  unfolding run_loop
  run_without_test r =
      name_error (elim b.loop [ none ↦ run_internal w b r | some l ↦ run_loop l r ])

  -- The refusal at the beginning of `run`, and what follows outside of a Go test.
  unfoldable pub run : Run → Returned
  unfolding run_without_test
  run r = if b.new_only then some (some not_allowed_to_run, r) else run_without_test r
