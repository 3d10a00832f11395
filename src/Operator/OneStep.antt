-- ===== src/Operator/OneStep.antt =====
-- One round of the loop over the steps in `runInternal`.
use runn.Common.{
  ℕ, ◌<◌, ◌≡◌, refl, sym, subst, inl, inr, Bool, true, false, not, ◌&&◌, Option, none, some, List,
  [], ◌∷◌, ◌++◌, length, is_some, Bool-cases,
}
use runn.Value.{Fields}
use runn.Errors.{Error, is_skip, append_error}
use runn.Store.View.{Distinct}
use runn.Operator.{Step, Runbook, Run, World}
use runn.Operator.Exec.{Exec, panics, goes_on, ◌>>◌, pure, change, call}
use runn.Operator.Record.{set_result, record_not_run}
use runn.Operator.RunStep.{run_step}
use runn.Operator.Internal.{record_outcome, note_skipped, note_step, step_round}
use runn.Operator.Fits.{step_keys}
use runn.Operator.Frame.{Moved-refl, IsClear, Ensures, Ensures-bind}
use runn.Operator.StepFn.{BindsSafely}
use runn.Operator.StepRounds.{Begun, Loops}
use runn.Operator.StepEnds.{Ended, run_step-Ended}
use runn.Operator.Outcomes.{
  Outcome, succeeded, skipped, failed, outcome_name, outcome_of_error, Course, succeeds, skips,
  fails,
}
use runn.Operator.StepNotes.{
  IsMarked, IsClosed, IsNoted, Marked, Noted, Never, set_result-Marked, set_result-Closed,
  record_not_run-Closed, record_outcome-Noted, note_skipped-Noted,
}

module _ (w : World) (b : Runbook) (i : ℕ) (earlier : List Fields)
    (distinct : Distinct (step_keys b)) (size : length earlier ≡ i) (start : Run) where
  -- What the loop knows after the step: the error and the flag go with the course of the outcomes.
  module _ (outs : List Outcome) where
    abbrev pub Stepped : Option Error × Bool → Run → Type 0
    Stepped (rerr, stop) r =
        (o : Outcome) × (Noted) b i earlier start o r
        × Course b.force (outs ++ o ∷ []) stop
        × (is_some rerr ≡ stop)

    with-Course :
        (o : Outcome) (m : Run → Exec (Unit {0})) (rerr : Option Error) (stop : Bool) (r : Run)
        → Course b.force (outs ++ o ∷ []) stop
        → is_some rerr ≡ stop
        → Ensures ((IsNoted w b i earlier distinct size start) o) (Never) (m r)
        → Ensures Stepped (Never) ((m >> pure (rerr, stop)) r)
    with-Course o m rerr stop r c agree h =
        Ensures-bind ((IsNoted w b i earlier distinct size start) o) Stepped (Never) m
          (λ _. pure (rerr, stop)) r h λ _ r' k. (o, k, c, agree)

    -- `setResult`, `recordNotRun`, the outcome, and the loop's variables.
    error_noted :
        (s : Step) (e : Error) (o : Outcome) (rerr : Option Error) (stop : Bool) (r : Run)
        → outcome_of_error (some e) ≡ o
        → Ended b i earlier start (some e) r
        → i < length r.states
        → Course b.force (outs ++ o ∷ []) stop
        → is_some rerr ≡ stop
        → Ensures Stepped (Never) (
            (change (set_result b i s (some e))
                >> (change (record_not_run b i)
                    >> (record_outcome w b (outcome_name o) >> pure (rerr, stop))))
              r)
    error_noted s e o rerr stop r is_o g h c agree =
        Ensures-bind ((IsMarked w b i earlier distinct size start) (outcome_of_error (some e)))
          Stepped (Never) (change (set_result b i s (some e)))
          (λ _.
            change (record_not_run b i)
            >> (record_outcome w b (outcome_name o) >> pure (rerr, stop)))
          r
          ((set_result-Marked w b i earlier distinct size start) s (some e) r g.settled.moved
            g.settled.clear h g.settled.records g.no_round)
          λ _ r₁ k₁.
            Ensures-bind ((IsClosed w b i earlier distinct size start) o) Stepped (Never)
              (change (record_not_run b i))
              (λ _. record_outcome w b (outcome_name o) >> pure (rerr, stop)) r₁
              ((record_not_run-Closed w b i earlier distinct size start) o r₁
                (subst (λ o. (Marked) b i earlier start o r₁) is_o k₁))
              λ _ r₂ k₂.
                with-Course o (record_outcome w b (outcome_name o)) rerr stop r₂ c agree
                  ((record_outcome-Noted w b i earlier distinct size start) o r₂ k₂)

    note_step-Stepped :
        (s : Step) (e : Option Error) (rerr : Option Error) (stop : Bool) (r : Run)
        → Ended b i earlier start e r
        → i < length r.states
        → Course b.force outs stop
        → (stop && not b.force) ≡ false
        → is_some rerr ≡ stop
        → Ensures Stepped (Never) (note_step w b i s e rerr stop r)
    unfolding note_step
    note_step-Stepped s none rerr stop r g h course runs agree =
        Ensures-bind ((IsClosed w b i earlier distinct size start) succeeded) Stepped (Never)
          (change (set_result b i s none)) (λ _. record_outcome w b "success" >> pure (rerr, stop))
          r ((set_result-Closed w b i earlier distinct size start) s r g h)
          λ _ r' k.
            with-Course succeeded (record_outcome w b "success") rerr stop r' (succeeds runs course)
              agree ((record_outcome-Noted w b i earlier distinct size start) succeeded r' k)
    note_step-Stepped s (some e) rerr stop r g h course runs agree =
        elim (Bool-cases (is_skip (some e))) [
          | inl skip ↦
              rw (skip, note_step)
                (error_noted s e skipped rerr stop r (rw skip refl) g h (skips course) agree)
          | inr fail ↦
              rw (fail, note_step)
                (error_noted s e failed (some (append_error rerr e)) true r (rw fail refl) g h
                  (fails runs course) refl)
        ]

    -- A round of the loop: a step that is not run is skipped.
    pub step_round-Stepped :
        (s : Step) (rerr : Option Error) (stop : Bool)
        → BindsSafely w s
        → Loops w s
        → IsClear i start
        → i < length start.states
        → Begun b earlier start
        → start.store.loop_index ≡ none
        → Course b.force outs stop
        → is_some rerr ≡ stop
        → Ensures Stepped (Never) (step_round w b i s rerr stop start)
    unfolding step_round
    step_round-Stepped s rerr stop safe loops clear h g n course agree =
        elim (Bool-cases (stop && not b.force)) [
          | inl halts ↦
              rw (halts, step_round)
                (with-Course skipped (note_skipped w b i s) rerr stop start (skips course) agree (
                  (note_skipped-Noted w b i earlier distinct size start) s start
                    (Moved-refl i start) clear h g n))
          | inr runs ↦
              let (e, r, ran, ended) =
                run_step-Ended b i earlier w start clear g distinct s safe loops n in
              rw (runs, step_round)
                (Ensures-bind (λ (e : Option Error) r. Ended b i earlier start e r) Stepped (Never)
                  (call (run_step w b i s)) (λ e. note_step w b i s e rerr stop) start
                  (subst
                    (λ (x : Option (Option Error × Run)).
                      Ensures (λ (e : Option Error) r. Ended b i earlier start e r) (Never)
                        (elim x [ none ↦ panics | some (e, r') ↦ goes_on e r' ]))
                    (sym ran) ended)
                  λ e r k.
                    note_step-Stepped s e rerr stop r k
                      (subst (λ n. i < n) (sym k.settled.moved.count) h) course runs agree)
        ]
