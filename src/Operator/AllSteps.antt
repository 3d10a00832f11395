-- ===== src/Operator/AllSteps.antt =====
-- The loop over the steps in `runInternal`: every step gets its result, its record and its outcome.
use runn.Common.{
  ℕ, suc, ◌+◌, ◌<◌, ◌≤◌, ◌≡◌, refl, sym, subst, ap, ◌∙◌, Bool, false, Option, none, some, List, [],
  ◌∷◌, ◌++◌, length, get_elem?, length-snoc, arith, is_some, All, All-snoc, get_elem?-snoc,
  get_elem?-before, get_elem?-at_end, inl, inr,
}
use runn.Value.{text, Fields}
use runn.Value.Maps.{get}
use runn.Errors.{Error}
use runn.Store.View.{view, Distinct}
use runn.Operator.{Step, Runbook, Run, World}
use runn.Operator.Internal.{step_round, run_steps, note_skipped, skip_steps}
use runn.Operator.Fits.{step_keys, Fits}
use runn.Operator.Frame.{Moved-refl, IsClear, Ensures, Ensures-bind}
use runn.Operator.StepFn.{BindsSafely}
use runn.Operator.StepRounds.{Loops}
use runn.Operator.Outcomes.{Outcome, skipped, outcome_name, Course, skips}
use runn.Operator.Noting.{Resulted}
use runn.Operator.StepNotes.{Noted, Never, note_skipped-Noted}
use runn.Operator.OneStep.{Stepped, step_round-Stepped}

module _ (b : Runbook) where
  -- Step `j` has the outcome, by its result and by its record.
  pub record Reports (r : Run) (j : ℕ) (o : Outcome) : Type 0 where
    pub resulted : Resulted b j o r
    pub fresh : Fields
    pub recorded : get_elem? (view r.store) j ≡ some fresh
    pub told : get "outcome" fresh ≡ some (text (outcome_name o))

  -- Where a run stands before step `length outs`, if the earlier steps have had these outcomes.
  pub record Between (outs : List Outcome) (r : Run) : Type 0 where
    pub fits : Fits b r.store
    pub recorded : length (view r.store) ≡ length outs
    pub no_round : r.store.loop_index ≡ none
    pub states : length r.states ≡ length b.steps
    pub clear : (j : ℕ) → length outs ≤ j → IsClear j r
    pub reports : (j : ℕ) (o : Outcome) → get_elem? outs j ≡ some o → Reports r j o

  -- A step more.
  Between-snoc :
      (outs : List Outcome) (r r' : Run) (o : Outcome)
      → Between outs r
      → Noted b (length outs) (view r.store) r o r'
      → Between (outs ++ o ∷ []) r'
  Between-snoc outs r r' o g n = record {
    fits = n.fits;
    recorded =
        ap length n.seen
        ∙ (length-snoc (view r.store) n.fresh ∙ (ap suc g.recorded ∙ sym (length-snoc outs o)));
    no_round = n.no_round;
    states = n.moved.count ∙ g.states;
    clear = λ j h st found.
        let later : suc (length outs) ≤ j = subst (λ k. k ≤ j) (length-snoc outs o) h in
        g.clear j (omega (arith, later)) st
          (sym (n.moved.others j (λ e. omega (arith, later, e))) ∙ found);
    reports = λ j p h. elim (get_elem?-snoc outs o j h) [
      | inl (known, before) ↦
          let known_report = g.reports j p known in
          let (st, found, out) = known_report.resulted in
          record {
            resulted = (st, n.moved.others j (λ e. omega (arith, before, e)) ∙ found, out);
            fresh = known_report.fresh;
            recorded =
                ap (λ l. get_elem? l j) n.seen
                ∙ get_elem?-before (view r.store) n.fresh j known_report.recorded;
            told = known_report.told;
          }
      | inr (last, same) ↦ record {
        resulted =
            subst (λ p. Resulted b j p r') same
              (subst (λ k. Resulted b k o r') (sym last) n.resulted);
        fresh = n.fresh;
        recorded =
            ap (λ k. get_elem? (view r'.store) k) (last ∙ sym g.recorded)
            ∙ (ap (λ l. get_elem? l (length (view r.store))) n.seen
                ∙ get_elem?-at_end (view r.store) n.fresh);
        told = subst (λ p. get "outcome" n.fresh ≡ some (text (outcome_name p))) same n.told;
      }
    ];
  }

  -- What the loop leaves behind when it ends.
  pub record Finished (rerr : Option Error) (r : Run) : Type 0 where
    pub outs : List Outcome
    pub stop : Bool
    pub course : Course b.force outs stop
    pub agree : is_some rerr ≡ stop
    pub all_steps : length outs ≡ length b.steps
    pub between : Between outs r

  abbrev pub OnlySkips : List Outcome → Type 0
  OnlySkips = All (λ o. o ≡ skipped)

  abbrev pub Skipped : Run → Type 0
  Skipped r = (f : Finished none r) × OnlySkips f.outs

  module _ (w : World) (distinct : Distinct (step_keys b)) where
    -- What the loop over the steps assumes of each of them.
    abbrev pub Runs : Step → Type 0
    Runs s = BindsSafely w s × Loops w s

    -- The loop over the steps in `runInternal`, from any of its rounds on, does not panic and does
    -- not return early.
    pub run_steps-Finished :
        (steps : List Step) (outs : List Outcome) (rerr : Option Error) (stop : Bool) (r : Run)
        → All Runs steps
        → length outs + length steps ≡ length b.steps
        → Course b.force outs stop
        → is_some rerr ≡ stop
        → Between outs r
        → Ensures
            (λ (e : Option Error) r'. Finished e r')
            Never
            (run_steps w b (length outs) steps rerr stop r)
    unfolding run_steps
    run_steps-Finished [] outs rerr stop r all size course agree g = record {
      outs = outs;
      stop = stop;
      course = course;
      agree = agree;
      all_steps = omega (arith, size);
      between = g;
    }
    run_steps-Finished (s ∷ steps) outs rerr stop r ((safe, loops), all) size course agree g =
        let i = length outs in
        let room : i < length b.steps = omega (arith, size) in
        Ensures-bind (Stepped w b i (view r.store) distinct g.recorded r outs)
          (λ (e : Option Error) r'. Finished e r') Never (step_round w b i s rerr stop)
          (λ (rerr', stop'). run_steps w b (suc i) steps rerr' stop') r
          (step_round-Stepped w b i (view r.store) distinct g.recorded r outs s rerr stop safe loops
            (g.clear i (omega arith)) (subst (λ n. i < n) (sym g.states) room)
            (record {
              fits = g.fits;
              room = subst (λ n. n < length b.steps) (sym g.recorded) room;
              seen = refl;
            })
            g.no_round course agree)
          λ (rerr', stop') r' (o, noted, course', agree').
            subst
              (λ k.
                Ensures (λ (e : Option Error) r'. Finished e r') Never
                  (run_steps w b k steps rerr' stop' r'))
              (length-snoc outs o)
              (run_steps-Finished steps (outs ++ o ∷ []) rerr' stop' r' all
                (omega (arith, length-snoc outs o, size)) course' agree'
                (Between-snoc outs r r' o g noted))

    -- `skip` skips all steps.
    pub skip_steps-Finished :
        (steps : List Step) (outs : List Outcome) (r : Run)
        → length outs + length steps ≡ length b.steps
        → Course b.force outs false
        → OnlySkips outs
        → Between outs r
        → Ensures (λ _ r'. Skipped r') Never (skip_steps w b (length outs) steps r)
    unfolding skip_steps
    skip_steps-Finished [] outs r size course only g = (
      record {
        outs = outs;
        stop = false;
        course = course;
        agree = refl;
        all_steps = omega (arith, size);
        between = g;
      },
      only,
    )
    skip_steps-Finished (s ∷ steps) outs r size course only g =
        let i = length outs in
        let room : i < length b.steps = omega (arith, size) in
        Ensures-bind (λ _ r'. Noted b i (view r.store) r skipped r') (λ _ r'. Skipped r') Never
          (note_skipped w b i s) (λ _. skip_steps w b (suc i) steps) r
          (note_skipped-Noted w b i (view r.store) distinct g.recorded r s r (Moved-refl i r)
            (g.clear i (omega arith)) (subst (λ n. i < n) (sym g.states) room)
            (record {
              fits = g.fits;
              room = subst (λ n. n < length b.steps) (sym g.recorded) room;
              seen = refl;
            })
            g.no_round)
          λ _ r' noted.
            subst (λ k. Ensures (λ _ r'. Skipped r') Never (skip_steps w b k steps r'))
              (length-snoc outs skipped)
              (skip_steps-Finished steps (outs ++ skipped ∷ []) r'
                (omega (arith, length-snoc outs skipped, size)) (skips course)
                (All-snoc (λ o. o ≡ skipped) outs skipped only refl)
                (Between-snoc outs r r' skipped g noted))
