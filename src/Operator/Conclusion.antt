-- ===== src/Operator/Conclusion.antt =====
-- What a run leaves behind: its hooks and the deferred function of `runInternal`.
use runn.Common.{
  ℕ, zero, suc, ◌≡◌, refl, sym, ap, ◌∙◌, ◌⊎◌, inl, inr, Bool, true, false, Option, some, List, [],
  ◌∷◌, length, get_elem?, is_some, map, length-map, some-injective, if◌then◌else◌, take, subst,
}
use runn.Errors.{Error}
use runn.Result.{RunResult, no_step}
use runn.Store.{clear_steps}
use runn.Store.Record.{view-clear_steps}
use runn.Operator.{Runbook, StepState, Run, World}
use runn.Operator.Exec.{Exec, panics, returns, goes_on}
use runn.Operator.Record.{clear_result}
use runn.Operator.Internal.{run_after_funcs, finish, clear_run}
use runn.Operator.Hooks.{
  HookFails, HooksPass, Hooked, run_after_funcs-Hooked, run_after_funcs-same, NotStarted, Started,
}
use runn.Operator.Fits.{step_keys}
use runn.Operator.Frame.{Ensures}
use runn.Operator.Outcomes.{Outcome, Course, nothing, any_failed, Course-any_failed}
use runn.Operator.AllSteps.{Between, Finished}

module _ (b : Runbook) where
  -- What the after hooks do to an error: nothing, if the run is skipped or they all pass, and else
  -- one of them has failed and there is an error.
  abbrev pub Told : World → Option Error → Option Error → Run → Type 0
  Told w e e' r =
      ((is_some e' ≡ is_some e) × ((r.skipped ≡ true) ⊎ HooksPass w b.after_funcs r.run_result))
      ⊎ ((r.skipped ≡ false) × HookFails w b.after_funcs × (is_some e' ≡ true))

  -- What a run that begins with the cleared run `c` leaves behind. With no outcome yet, the condition
  -- or a before hook has failed.
  pub record Concluded (w : World) (c : Run) (e : Option Error) (r : Run) : Type 0 where
    pub outs : List Outcome
    pub stop : Bool
    pub course : Course b.force outs stop
    pub between : Between b outs r
    pub complete :
        ((outs ≡ []) × (is_some e ≡ true) × NotStarted w b c)
        ⊎ ((length outs ≡ length b.steps)
            × Started w b c outs
            × (((is_some e ≡ any_failed outs)
                  × ((r.skipped ≡ true) ⊎ HooksPass w b.after_funcs r.run_result))
                ⊎ ((r.skipped ≡ false) × HookFails w b.after_funcs × (is_some e ≡ true))))

  pub Between-result :
      (outs : List Outcome) (r : Run) (x : RunResult) (skipped : Bool)
      → Between b outs r
      → Between b outs (record r { run_result = x; skipped = skipped })
  Between-result outs r x skipped g = record {
    fits = g.fits;
    recorded = g.recorded;
    no_round = g.no_round;
    states = g.states;
    clear = g.clear;
    reports = λ j o h.
        let p = g.reports j o h in
        record { resulted = p.resulted; fresh = p.fresh; recorded = p.recorded; told = p.told };
  }

  cleared :
      (l : List StepState) (j : ℕ) (st : StepState)
      → get_elem? (map clear_result l) j ≡ some st
      → st.result ≡ no_step
  cleared [] j st h = absurd (cc)
  cleared (x ∷ l) zero st h = ap (λ s. s.result) (sym (some-injective h))
  cleared (x ∷ l) (suc j) st h = cleared l j st h

  pub before_steps :
      (w : World) (r : Run)
      → r.store.use_map ≡ b.use_map
      → length r.states ≡ length b.steps
      → Between b [] (clear_run w b r)
  unfolding clear_run clear_steps
  before_steps w r mode size =
      let (stored, seen, round, _, _) = view-clear_steps r.store in
      record {
        fits = record {
          stored = stored;
          mode = mode;
          keys = λ m. ap (λ n. take n (step_keys b)) (ap length (sym seen));
        };
        recorded = ap length seen;
        no_round = round;
        states = length-map r.states clear_result ∙ size;
        clear = λ j h st k. cleared r.states j st k;
        reports = λ j o h. absurd (cc);
      }

  module _ (w : World) (c : Run) where
    -- A return before the steps of the cleared run `c`.
    abbrev pub Stopped : Option Error → Run → Type 0
    Stopped e r = (is_some e ≡ true) × NotStarted w b c × Between b [] r

    -- All steps are done, and how the run began.
    abbrev pub Begun : Option Error → Run → Type 0
    Begun e r = (f : Finished b e r) × Started w b c f.outs

    -- What the body has done when it returns.
    abbrev pub Left : Option Error → Run → Type 0
    Left e r = Stopped e r ⊎ Begun e r

    still_failing :
        (e e' : Option Error) (r' : Run) → Told w e e' r' → is_some e ≡ true → is_some e' ≡ true
    still_failing e e' r' (inl (same, _)) h = same ∙ h
    still_failing e e' r' (inr (_, _, fails)) h = fails

    concluded :
        (e e' : Option Error) (r r' : Run) (x : RunResult)
        → r' ≡ record r { run_result = x }
        → Told w e e' r'
        → Left e r
        → Concluded w c e' r'
    concluded e e' r r' x same told (inl (failing, cause, g)) = record {
      outs = [];
      stop = false;
      course = nothing;
      between = subst (Between b []) (sym same) (Between-result [] r x r.skipped g);
      complete = inl (refl, still_failing e e' r' told failing, cause);
    }
    concluded e e' r r' x same told (inr (g, started)) = record {
      outs = g.outs;
      stop = g.stop;
      course = g.course;
      between = subst (Between b g.outs) (sym same) (Between-result g.outs r x r.skipped g.between);
      complete = inr (
        g.all_steps,
        started,
        elim told [
          | inl (as_before, pass) ↦ inl (as_before ∙ (g.agree ∙ Course-any_failed g.course), pass)
          | inr hook ↦ inr hook
        ],
      );
    }

    Told-by_hooks :
        (e : Option Error) (r : Run) (x : Option Error × Run)
        → r.skipped ≡ false
        → x.1.skipped ≡ r.skipped
        → Hooked w b b.after_funcs e r x
        → Told w e x.0 x.1
    Told-by_hooks e r x unskipped kept (inl (same, pass)) = inl (
      ap (λ (x : Option Error × Run). is_some x.0) same,
      inr (
          subst (λ (x : Option Error × Run). HooksPass w b.after_funcs x.1.run_result) (sym same)
            pass),
    )
    Told-by_hooks e r x unskipped kept (inr (hook, fails)) = inr (kept ∙ unskipped, hook, fails)

    finish_choice :
        (skips : Bool) (e : Option Error) (r : Run) (x : RunResult)
        → r.skipped ≡ skips
        → Left e r
        → (let ended =
              if skips
              then (e, record r { run_result = x })
              else run_after_funcs w b b.after_funcs e (record r { run_result = x }) in
            Concluded w c ended.0 ended.1)
    finish_choice true e r x s g = concluded e e r _ x refl (inl (refl, inl s)) g
    finish_choice false e r x s g =
        let r₁ : Run = record r { run_result = x } in
        let (x', same) = run_after_funcs-same w b b.after_funcs e r₁ in
        concluded e _ r _ x' same
          (Told-by_hooks e r₁ (run_after_funcs w b b.after_funcs e r₁) s
            (ap (λ (r : Run). r.skipped) same) (run_after_funcs-Hooked w b b.after_funcs e r₁))
          g

    pub finish-Concluded :
        (e : Option Error) (r : Run)
        → Left e r
        → Concluded w c (finish w b e r).0 (finish w b e r).1
    unfolding finish
    finish-Concluded e r g = finish_choice r.skipped e r _ refl g

pub Ensures-map :
    {A : Type 0} (P P' : A → Run → Type 0) (Q Q' : Option Error → Run → Type 0) (x : Exec A)
    → ((a : A) (r : Run) → P a r → P' a r)
    → ((e : Option Error) (r : Run) → Q e r → Q' e r)
    → Ensures P Q x
    → Ensures P' Q' x
Ensures-map P P' Q Q' panics f g h = h
Ensures-map P P' Q Q' (returns e r) f g h = g e r h
Ensures-map P P' Q Q' (goes_on a r) f g h = f a r h
