-- ===== src/Operator/StepEnds.antt =====
-- `runStep` as a whole: its condition, its loop and its deferred function.
use runn.Common.{
  ℕ, ◌<◌, ◌≡◌, refl, ◌∙◌, inl, inr, Bool, true, false, Option, none, some, List, ◌==◌, Bool-cases,
}
use runn.Common.Int.{ℤ, to_rounds}
use runn.Value.{Fields, end}
use runn.Errors.{Error, step_skipped, Result, ok, err}
use runn.Store.View.{Distinct}
use runn.Store.Root.{to_map}
use runn.Eval.{eval_cond, eval_count}
use runn.Operator.{Loop, Step, Runbook, Run, World}
use runn.Operator.Exec.{Returned}
use runn.Operator.Runners.{step_store}
use runn.Operator.RunStep.{
  step_fn, set_round, rounds, end_rounds, step_loop, run_step_body, run_step,
}
use runn.Operator.Fits.{step_keys}
use runn.Operator.Frame.{Moved-refl, Moved-trans, IsClear}
use runn.Operator.Stages.{Left}
use runn.Operator.StepFn.{BindsSafely, step_fn-Done}
use runn.Operator.StepRounds.{
  Begun, Loops, Ends, Settled, Settles, Ends-same, Fits-at_end, Fits-set_round, view-set_round,
  loop_index-set_round, Moved-set_round, IsClear-set_round, failed_round,
}
use runn.Operator.StepRuns.{rounds-Settles}

-- What a step has done when `runStep` returns: no round of its loop is left open.
pub record Ended (b : Runbook) (i : ℕ) (earlier : List Fields) (start : Run) (e : Option Error)
    (r : Run) : Type 0 where
  pub settled : Settled b i earlier start e r
  pub no_round : r.store.loop_index ≡ none

module _ (b : Runbook) (i : ℕ) (earlier : List Fields) where
  abbrev EndsStep : Run → Returned → Type 0
  EndsStep start x =
      (e : Option Error) × (r : Run) × (x ≡ some (e, r)) × Ended b i earlier start e r

  -- The deferred function of the loop.
  end_rounds-EndsStep :
      (w : World) (start : Run) (x : Returned)
      → Settles b i earlier start x
      → EndsStep start (end_rounds w b i x)
  end_rounds-EndsStep w start x (e, r, h, g) = (
    e,
    set_round w b i none r,
    rw h refl,
    record {
      settled = record {
        moved = Moved-trans i g.moved (Moved-set_round b i earlier w none r);
        clear = IsClear-set_round b i earlier w none r g.clear;
        records =
            Ends-same b i earlier e r (set_round w b i none r)
              (Fits-set_round b i earlier w none r (Fits-at_end b i earlier e r g.records))
              (view-set_round b i earlier w none r) g.records;
      };
      no_round = loop_index-set_round b i earlier w none r;
    },
  )

  module _ (w : World) (r : Run) (c : IsClear i r) (g : Begun b earlier r) where
    -- The step returns before anything has run.
    stays : (e : Error) → r.store.loop_index ≡ none → EndsStep r (some (some e, r))
    stays e n = (
      some e,
      r,
      refl,
      record {
        settled = record { moved = Moved-refl i r; clear = c; records = inl g };
        no_round = n;
      },
    )

    module _ (distinct : Distinct (step_keys b)) (s : Step) (safe : BindsSafely w s) where
      loop_count :
          (l : Loop) (x : Result ℤ)
          → w.continues r 0 ≡ true
          → ((k : ℤ) → x ≡ ok k → 0 < to_rounds k)
          → EndsStep r (elim x [
            | err e ↦ end_rounds w b i (some (some e, r))
            | ok k ↦ end_rounds w b i (rounds w b i s l (to_rounds k) 0 (l.until == "") "" r)
          ])
      loop_count l (err e) goes counted =
          end_rounds-EndsStep w r _
            (some e, r, refl, record { moved = Moved-refl i r; clear = c; records = inl g })
      loop_count l (ok k) goes counted = end_rounds-EndsStep w r _ (
          rounds-Settles b i earlier w l distinct s safe (to_rounds k) 0 (l.until == "") "" r
            (λ e. (counted k refl, goes)) c (inl (refl, g)))

      step_loop-EndsStep :
          (l : Loop) → s.loop ≡ some l → Loops w s → EndsStep r (step_loop w b i s l r)
      unfolding step_loop
      step_loop-EndsStep l e loops =
          let (goes, counted) = loops l e r in
          loop_count l (eval_count w.lang l.count (to_map w.env r.store)) goes counted

      done_records : (e : Option Error) (r' : Run) → Left b i r earlier e r' → Ends b i earlier e r'
      done_records none r' h = h
      done_records (some e) r' h = failed_round b i earlier r' h

      once : r.store.loop_index ≡ none → EndsStep r (step_fn w b i s r)
      once n =
          let (e, r', ran, d) = step_fn-Done b i r earlier distinct w s safe (record {
            fits = g.fits;
            room = g.room;
            stale = end;
            seen = inl (g.seen, rw n refl);
          }) in
          (
            e,
            r',
            ran,
            record {
              settled = record {
                moved = d.moved;
                clear = d.clear;
                records = done_records e r' d.records;
              };
              no_round = d.same_round ∙ n;
            },
          )

      by_loop :
          (o : Option Loop)
          → s.loop ≡ o
          → Loops w s
          → r.store.loop_index ≡ none
          → EndsStep r (elim o [ none ↦ step_fn w b i s r | some l ↦ step_loop w b i s l r ])
      by_loop none e loops n = once n
      by_loop (some l) e loops n = step_loop-EndsStep l e loops

      body_ends : Loops w s → r.store.loop_index ≡ none → EndsStep r (run_step_body w b i s r)
      unfolding run_step_body
      body_ends loops n = by_loop s.loop refl loops n

      condition_ends :
          (x : Result Bool)
          → Loops w s
          → r.store.loop_index ≡ none
          → EndsStep r (elim x [
            | err e ↦ some (some e, r)
            | ok true ↦ run_step_body w b i s r
            | ok false ↦ some (some step_skipped, r)
          ])
      condition_ends (err e) loops n = stays e n
      condition_ends (ok true) loops n = body_ends loops n
      condition_ends (ok false) loops n = stays step_skipped n

      -- If the keys of the steps differ, the step has no result, the store holds the records of the
      -- earlier steps, its `bind:` gives keys that can be compared and its loop, if it has one, makes
      -- at least one round, then `runStep` returns. Without an error the step has
      -- recorded exactly once after the earlier steps, however many rounds it made, and with one at
      -- most once. The records of the earlier steps and the states of the other steps are as before,
      -- and no round is left open.
      pub run_step-Ended :
          Loops w s
          → r.store.loop_index ≡ none
          → (e : Option Error) × (r' : Run) × (run_step w b i s r ≡ some (e, r'))
            × Ended b i earlier r e r'
      unfolding run_step
      run_step-Ended loops n = elim (Bool-cases (s.if_cond == "")) [
        | inl blank ↦ rw blank (body_ends loops n)
        | inr cond ↦
            rw cond (condition_ends (eval_cond w.lang s.if_cond (step_store w b true r)) loops n)
      ]
