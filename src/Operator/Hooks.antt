-- ===== src/Operator/Hooks.antt =====
-- The condition of a runbook and the hooks around its steps, in `runInternal` of operator.go.
use runn.Common.{
  ℕ, suc, ◌≡◌, refl, ◌⊎◌, inl, inr, true, false, Option, none, some, List, [], ◌∷◌, get_elem?,
  is_some, Option-cases, All, ◌==◌,
}
use runn.Errors.{Error, before_func, ok, err}
use runn.Result.{RunResult}
use runn.Eval.{eval_cond}
use runn.Operator.{Runbook, Run, World}
use runn.Operator.Runners.{step_store}
use runn.Operator.Exec.{Exec, panics, returns, goes_on}
use runn.Operator.Internal.{run_before_funcs, run_after_funcs}
use runn.Operator.Frame.{Ensures}
use runn.Operator.Outcomes.{Outcome, skipped}

module _ (w : World) where
  -- A hook of the list fails.
  pub record HookFails (fns : List ℕ) : Type 0 where
    pub place : ℕ
    pub fn : ℕ
    pub result : RunResult
    pub error : Error
    pub listed : get_elem? fns place ≡ some fn
    pub fails : w.hook fn result ≡ some error

  -- No hook of the list fails, with this result of the run.
  abbrev pub HooksPass : List ℕ → RunResult → Type 0
  HooksPass fns result = All (λ fn. w.hook fn result ≡ none) fns

  HookFails-cons : (fn : ℕ) (fns : List ℕ) → HookFails fns → HookFails (fn ∷ fns)
  HookFails-cons fn fns h = record {
    place = suc h.place;
    fn = h.fn;
    result = h.result;
    error = h.error;
    listed = h.listed;
    fails = h.fails;
  }

  HookFails-first :
      (fn : ℕ) (fns : List ℕ) (result : RunResult) (x : Error)
      → w.hook fn result ≡ some x
      → HookFails (fn ∷ fns)
  HookFails-first fn fns result x h = record {
    place = 0;
    fn = fn;
    result = result;
    error = x;
    listed = refl;
    fails = h;
  }

  module _ (b : Runbook) where
    -- The before hooks change nothing: they all pass, or one fails and the run returns.
    pub run_before_funcs-hooks :
        (fns : List ℕ) (r : Run)
        → Ensures
            (λ _ r'. (r' ≡ r) × HooksPass fns r.run_result)
            (λ e r'. (r' ≡ r) × (is_some e ≡ true) × HookFails fns)
            (run_before_funcs w b fns r)
    unfolding run_before_funcs
    run_before_funcs-hooks [] r = (refl, tt)
    run_before_funcs-hooks (fn ∷ fns) r =
        by_hook (w.hook fn r.run_result) refl (run_before_funcs w b fns r)
          (run_before_funcs-hooks fns r)
      where
        further :
            (m : Exec (Unit {0}))
            → w.hook fn r.run_result ≡ none
            → Ensures
                (λ _ r'. (r' ≡ r) × HooksPass fns r.run_result)
                (λ e r'. (r' ≡ r) × (is_some e ≡ true) × HookFails fns)
                m
            → Ensures
                (λ _ r'. (r' ≡ r) × HooksPass (fn ∷ fns) r.run_result)
                (λ e r'. (r' ≡ r) × (is_some e ≡ true) × HookFails (fn ∷ fns))
                m
        further panics n h = h
        further (returns e r') n (same, fails, hook) = (same, fails, HookFails-cons fn fns hook)
        further (goes_on a r') n (same, pass) = (same, (n, pass))

        by_hook :
            (o : Option Error)
            → w.hook fn r.run_result ≡ o
            → (m : Exec (Unit {0}))
            → Ensures
                (λ _ r'. (r' ≡ r) × HooksPass fns r.run_result)
                (λ e r'. (r' ≡ r) × (is_some e ≡ true) × HookFails fns)
                m
            → Ensures
                (λ _ r'. (r' ≡ r) × HooksPass (fn ∷ fns) r.run_result)
                (λ e r'. (r' ≡ r) × (is_some e ≡ true) × HookFails (fn ∷ fns))
                (elim o [ some e ↦ returns (some (before_func e)) r | none ↦ m ])
        by_hook none n m h = further m n h
        by_hook (some x) n m h = (refl, refl, HookFails-first fn fns r.run_result x n)

    -- What the after hooks do to the error: nothing if they all pass, and else there is one.
    abbrev pub Hooked : List ℕ → Option Error → Run → Option Error × Run → Type 0
    Hooked fns e r x =
        ((x ≡ (e, r)) × HooksPass fns r.run_result) ⊎ (HookFails fns × (is_some x.0 ≡ true))

    run_after_funcs-is_some :
        (fns : List ℕ) (e : Option Error) (r : Run)
        → is_some e ≡ true
        → is_some (run_after_funcs w b fns e r).0 ≡ true
    unfolding run_after_funcs
    run_after_funcs-is_some [] e r h = h
    run_after_funcs-is_some (fn ∷ fns) e r h = elim (Option-cases (w.hook fn r.run_result)) [
      | inl n ↦ rw (n, run_after_funcs) (run_after_funcs-is_some fns e r h)
      | inr (x, n) ↦ rw (n, run_after_funcs) (run_after_funcs-is_some fns _ _ refl)
    ]

    pub run_after_funcs-Hooked :
        (fns : List ℕ) (e : Option Error) (r : Run) → Hooked fns e r (run_after_funcs w b fns e r)
    unfolding run_after_funcs
    run_after_funcs-Hooked [] e r = inl (refl, tt)
    run_after_funcs-Hooked (fn ∷ fns) e r = elim (Option-cases (w.hook fn r.run_result)) [
      | inl n ↦ elim (run_after_funcs-Hooked fns e r) [
        | inl (same, pass) ↦ inl (rw (n, run_after_funcs) same, (n, pass))
        | inr (hook, fails) ↦ inr (HookFails-cons fn fns hook, rw (n, run_after_funcs) fails)
      ]
      | inr (x, n) ↦ inr (
        HookFails-first fn fns r.run_result x n,
        rw (n, run_after_funcs) (run_after_funcs-is_some fns _ _ refl),
      )
    ]

    pub run_after_funcs-same :
        (fns : List ℕ) (e : Option Error) (r : Run)
        → (x : RunResult) × ((run_after_funcs w b fns e r).1 ≡ record r { run_result = x })
    unfolding run_after_funcs
    run_after_funcs-same [] e r = (r.run_result, refl)
    run_after_funcs-same (fn ∷ fns) e r = elim (Option-cases (w.hook fn r.run_result)) [
      | inl n ↦ rw (n, run_after_funcs) (run_after_funcs-same fns e r)
      | inr (x, n) ↦
          rw (n, run_after_funcs) (run_after_funcs-same fns _ (record r { run_result = _ }))
    ]

    -- The runbook has no condition, or it holds on the cleared run.
    abbrev pub Willing : Run → Type 0
    Willing c =
        ((b.if_cond == "") ≡ true) ⊎ (eval_cond w.lang b.if_cond (step_store w b true c) ≡ ok true)

    -- The run has returned before the steps: the condition cannot be evaluated, or a before hook has
    -- failed.
    abbrev pub NotStarted : Run → Type 0
    NotStarted c =
        (((b.if_cond == "") ≡ false)
          × (x : Error) × (eval_cond w.lang b.if_cond (step_store w b true c) ≡ err x))
        ⊎ (Willing c × HookFails b.before_funcs)

    -- The steps are run, after the before hooks have passed, or skipped, since the condition is false.
    abbrev pub Started : Run → List Outcome → Type 0
    Started c outs =
        (Willing c × (result : RunResult) × HooksPass b.before_funcs result)
        ⊎ (((b.if_cond == "") ≡ false)
            × (eval_cond w.lang b.if_cond (step_store w b true c) ≡ ok false)
            × All (λ o. o ≡ skipped) outs)
