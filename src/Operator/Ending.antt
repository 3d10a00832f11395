-- ===== src/Operator/Ending.antt =====
-- `runInternal` as a whole.
use runn.Common.{
  ◌≡◌, refl, sym, subst, is_some, inl, inr, Bool, true, false, Option, none, some, [], length,
  arith, All, ◌==◌, if◌then◌else◌,
}
use runn.Result.{RunResult}
use runn.Errors.{Error, Result, ok, err}
use runn.Store.View.{Distinct}
use runn.Eval.{eval_cond}
use runn.Operator.{Runbook, Run, World}
use runn.Operator.Exec.{Exec, panics, returns, goes_on, ◌>>◌, pure, Returned, function}
use runn.Operator.Runners.{step_store}
use runn.Operator.Internal.{
  run_steps, skip, run_before_funcs, main_part, internal_body, finish, clear_run, run_internal,
}
use runn.Operator.Fits.{step_keys}
use runn.Operator.Frame.{Ensures, Ensures-bind}
use runn.Operator.StepNotes.{Never}
use runn.Operator.Outcomes.{nothing}
use runn.Operator.Hooks.{HookFails, HooksPass, Willing, run_before_funcs-hooks}
use runn.Operator.AllSteps.{
  Between, Finished, Runs, Skipped, run_steps-Finished, skip_steps-Finished,
}
use runn.Operator.Conclusion.{
  Concluded, Between-result, before_steps, Stopped, Begun, Ensures-map, finish-Concluded,
}

module _ (b : Runbook) (w : World) (distinct : Distinct (step_keys b))
    (all : All (Runs b w distinct) b.steps) (c : Run) where
  -- The steps, once the before hooks have passed with this result of the run.
  steps-Begun :
      (r : Run) (result : RunResult)
      → Willing w b c
      → HooksPass w b.before_funcs result
      → Between b [] r
      → Ensures (Begun b w c) (Stopped b w c) (run_steps w b 0 b.steps none false r)
  steps-Begun r result willing pass g =
      Ensures-map (λ (e : Option Error) r'. Finished b e r') (Begun b w c) Never (Stopped b w c) _
        (λ e r' f. (f, inl (willing, result, pass))) (λ e r' h. absurd h)
        (run_steps-Finished b w distinct b.steps [] none false r all (omega arith) nothing refl g)

  -- After the before hooks.
  abbrev Hooked : Unit {0} → Run → Type 0
  Hooked _ r = Between b [] r × ((result : RunResult) × HooksPass w b.before_funcs result)

  hooks-Hooked :
      (r : Run)
      → Willing w b c
      → Between b [] r
      → Ensures Hooked (Stopped b w c) (run_before_funcs w b b.before_funcs r)
  hooks-Hooked r willing g =
      Ensures-map (λ _ r'. (r' ≡ r) × HooksPass w b.before_funcs r.run_result) Hooked
        (λ e r'. (r' ≡ r) × (is_some e ≡ true) × HookFails w b.before_funcs) (Stopped b w c)
        (run_before_funcs w b b.before_funcs r)
        (λ _ r' (same, pass). (subst (Between b []) (sym same) g, (r.run_result, pass)))
        (λ e r' (same, fails, hook).
          (fails, inr (willing, hook), subst (Between b []) (sym same) g))
        (run_before_funcs-hooks w b b.before_funcs r)

  main_part-Begun :
      (r : Run)
      → Willing w b c
      → Between b [] r
      → Ensures (Begun b w c) (Stopped b w c) (main_part w b r)
  unfolding main_part
  main_part-Begun r willing g =
      Ensures-bind Hooked (Begun b w c) (Stopped b w c) (run_before_funcs w b b.before_funcs)
        (λ _. run_steps w b 0 b.steps none false) _
        (hooks-Hooked _ willing (Between-result b [] r _ r.skipped g))
        λ _ r' (k, (result, pass)). steps-Begun r' result willing pass k

  skip-Begun :
      (r : Run)
      → ((b.if_cond == "") ≡ false)
      → eval_cond w.lang b.if_cond (step_store w b true c) ≡ ok false
      → Between b [] r
      → Ensures (Begun b w c) (Stopped b w c) ((skip w b >> pure none) r)
  unfolding skip
  skip-Begun r asked unmet g =
      Ensures-bind (λ _ r'. Begun b w c none r') (Begun b w c) (Stopped b w c) (skip w b)
        (λ _. pure none) r
        (Ensures-map (λ (_ : Unit {0}) r'. Skipped b r') (λ _ r'. Begun b w c none r') Never
          (Stopped b w c) _ (λ _ r' (f, only). (f, inr (asked, unmet, only))) (λ e r' h. absurd h)
          (skip_steps-Finished b w distinct b.steps [] (record r { skipped = true }) (omega arith)
            nothing tt ((Between-result b) [] r r.run_result true g)))
        λ _ r' k. k

  body-Begun : Between b [] c → Ensures (Begun b w c) (Stopped b w c) (internal_body w b c)
  unfolding internal_body
  body-Begun g =
      by_condition (b.if_cond == "") (eval_cond w.lang b.if_cond (step_store w b true c)) refl refl
    where
      by_condition :
          (blank : Bool) (x : Result Bool)
          → (b.if_cond == "") ≡ blank
          → eval_cond w.lang b.if_cond (step_store w b true c) ≡ x
          → Ensures (Begun b w c) (Stopped b w c) (
              if blank then main_part w b c else elim x [
                | err e ↦ returns (some e) c
                | ok true ↦ main_part w b c
                | ok false ↦ (skip w b >> pure none) c
              ])
      by_condition true x asked h = main_part-Begun c (inl asked) g
      by_condition false (err e) asked h = (refl, inl (asked, e, h), g)
      by_condition false (ok true) asked h = main_part-Begun c (inr h) g
      by_condition false (ok false) asked h = skip-Begun c asked h g

  returned :
      (x : Exec (Option Error))
      → Ensures (Begun b w c) (Stopped b w c) x
      → (e : Option Error) × (r : Run) × (elim (function x) as (λ _. Returned) [
        | none ↦ none
        | some (e, r) ↦ some (finish w b e r)
      ]
          ≡ some (e, r))
        × Concluded b w c e r
  returned panics h = absurd h
  returned (returns e r) h = (_, _, refl, finish-Concluded b w c e r (inl h))
  returned (goes_on e r) h = (_, _, refl, finish-Concluded b w c e r (inr h))

module _ (b : Runbook) (w : World) (distinct : Distinct (step_keys b))
    (all : All (Runs b w distinct) b.steps) where
  -- `runInternal` of a runbook whose step keys differ, whose conditions in `bind:` give keys that can
  -- be compared, and whose step loops make a round, returns, on a store of the runbook's form and
  -- with a state for each step. Either there is an error and no step has run: the runbook's condition
  -- cannot be evaluated, or there is none or it holds, and a hook before the steps fails. Or each step
  -- has a result and, in its place, a record whose "outcome" is that of the result; the outcomes follow
  -- a course, in which after a failure each step is skipped unless the run is forced; either the
  -- condition is false and all outcomes are skips, or there is none or it holds, and the hooks before
  -- the steps pass. In this case, either the run is marked as skipped or the hooks after the steps pass,
  -- and there is an error if and only if a step has failed; or one of these hooks fails, and there is an
  -- error.
  pub run_internal-Concluded :
      (r : Run)
      → r.store.use_map ≡ b.use_map
      → length r.states ≡ length b.steps
      → (e : Option Error) × (r' : Run) × (run_internal w b r ≡ some (e, r'))
        × Concluded b w (clear_run w b r) e r'
  unfolding run_internal
  run_internal-Concluded r mode size =
      let c = clear_run w b r in
      returned b w distinct all c (internal_body w b c)
        (body-Begun b w distinct all c (before_steps b w r mode size))
