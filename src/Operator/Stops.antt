-- ===== src/Operator/Stops.antt =====
-- After a failed step of a run that is not forced, every step is skipped.
use runn.Common.{
  ℕ, zero, suc, ◌<◌, ◌≡◌, refl, sym, subst, ap, ◌∙◌, inl, inr, Bool, true, false, not, ◌&&◌, Option,
  none, some, List, [], ◌∷◌, ◌++◌, length, get_elem?, get_elem?-snoc, get_elem?_of_lt,
  some-injective, arith, All, ltb, Bool-cases,
}
use runn.Errors.{Error}
use runn.Store.View.{Distinct}
use runn.Operator.{Runbook, Run, World}
use runn.Operator.Internal.{run_internal}
use runn.Operator.Fits.{step_keys}
use runn.Operator.Outcomes.{
  Outcome, succeeded, skipped, failed, outcome_of_result, Course, nothing, succeeds, skips, fails,
  any_failed, Course-any_failed,
}
use runn.Operator.Noting.{Resulted}
use runn.Operator.AllSteps.{Between, Runs}
use runn.Operator.Ending.{run_internal-Concluded}

nothing_at : (j : ℕ) → get_elem? {A = Outcome} [] j ≡ some failed → ⊥
nothing_at j h = absurd (cc)

any_failed_of_get :
    (outs : List Outcome) (j : ℕ) → get_elem? outs j ≡ some failed → any_failed outs ≡ true
any_failed_of_get [] j h = absurd (cc)
any_failed_of_get (failed ∷ outs) j h = refl
any_failed_of_get (succeeded ∷ outs) zero h = absurd (cc)
any_failed_of_get (succeeded ∷ outs) (suc j) h = any_failed_of_get outs j h
any_failed_of_get (skipped ∷ outs) zero h = absurd (cc)
any_failed_of_get (skipped ∷ outs) (suc j) h = any_failed_of_get outs j h

abbrev SkipsAfter : List Outcome → Type 0
SkipsAfter outs =
    (j k : ℕ) (o : Outcome)
    → j < k
    → get_elem? outs j ≡ some failed
    → get_elem? outs k ≡ some o
    → o ≡ skipped

SkipsAfter-snoc :
    (outs : List Outcome) (x : Outcome)
    → SkipsAfter outs
    → (any_failed outs ≡ true → x ≡ skipped)
    → SkipsAfter (outs ++ x ∷ [])
SkipsAfter-snoc outs x before last j k o less at_j at_k = elim (get_elem?-snoc outs x j at_j) [
  | inr (j_last, _) ↦ elim (get_elem?-snoc outs x k at_k) [
    | inl (_, k_before) ↦ absurd (omega (arith, less, j_last, k_before))
    | inr (k_last, _) ↦ absurd (omega (arith, less, j_last, k_last))
  ]
  | inl (known, _) ↦ elim (get_elem?-snoc outs x k at_k) [
    | inl (also, _) ↦ before j k o less known also
    | inr (_, same) ↦ sym same ∙ last (any_failed_of_get outs j known)
  ]
]

no_run_after : (stop : Bool) → (stop && not false) ≡ false → stop ≡ true → ⊥
no_run_after true h k = absurd (cc)
no_run_after false h k = absurd (cc)

Course-SkipsAfter : {outs : List Outcome} {stop : Bool} → Course false outs stop → SkipsAfter outs
Course-SkipsAfter nothing = λ j k o less at_j at_k. absurd (cc)
Course-SkipsAfter (skips {outs} c) = SkipsAfter-snoc outs skipped (Course-SkipsAfter c) (λ _. refl)
Course-SkipsAfter (succeeds {outs} {stop} h c) =
    SkipsAfter-snoc outs succeeded (Course-SkipsAfter c)
      (λ f. absurd (no_run_after stop h (Course-any_failed c ∙ f)))
Course-SkipsAfter (fails {outs} {stop} h c) =
    SkipsAfter-snoc outs failed (Course-SkipsAfter c)
      (λ f. absurd (no_run_after stop h (Course-any_failed c ∙ f)))

module _ (b : Runbook) (r : Run) (outs : List Outcome) (g : Between b outs r) where
  -- The outcome that a step's result reports is the one in the course.
  outcome_at : (j : ℕ) (o : Outcome) → Resulted b j o r → get_elem? outs j ≡ some o
  outcome_at j o (st, found, out) = elim (Bool-cases (ltb j (length outs))) [
    | inl before ↦
        let (p, known) = get_elem?_of_lt outs j (ground arith) in
        let (st', also, out') = (g.reports j p known).resulted in
        let same : st ≡ st' = some-injective (sym found ∙ also) in
        known ∙ (sym out' ∙ (ap (λ s. outcome_of_result s.result) (sym same) ∙ out))
    | inr after ↦
        let empty = g.clear j (ground arith) st found in
        absurd (no_outcome (sym (ap outcome_of_result empty) ∙ out))
  ]
    where
      no_outcome : none ≡ some o → ⊥
      no_outcome h = absurd (cc)

module _ (b : Runbook) (w : World) (distinct : Distinct (step_keys b))
    (all : All (Runs b w distinct) b.steps) where
  -- If the keys of the steps differ, their conditions in `bind:` give keys that can be compared, their
  -- loops make a round, the runbook is not forced, and `runInternal`, on a store of the runbook's form
  -- and with a state for each step, leaves a step with a failure, then each later step of the runbook
  -- has a result, and has been skipped.
  pub run_internal-stops :
      (r : Run)
      → r.store.use_map ≡ b.use_map
      → length r.states ≡ length b.steps
      → b.force ≡ false
      → (e : Option Error) (r' : Run) → run_internal w b r ≡ some (e, r')
      → (j k : ℕ) → j < k
      → k < length b.steps
      → Resulted b j failed r'
      → Resulted b k skipped r'
  run_internal-stops r mode size unforced e r' ran j k less in_steps failing =
      let (e₁, r₁, also, c) = run_internal-Concluded b w distinct all r mode size in
      let same : r₁ ≡ r' = ap (λ (p : Option Error × Run). p.1) (some-injective (sym also ∙ ran)) in
      let g = subst (Between b c.outs) same c.between in
      let at_j = outcome_at b r' c.outs g j failed failing in
      elim c.complete [
        | inl (none_yet, _, _) ↦
            absurd (nothing_at j (ap (λ l. get_elem? l j) (sym none_yet) ∙ at_j))
        | inr (all_steps, _, _) ↦
            let (p, at_k) =
              get_elem?_of_lt c.outs k (subst (λ n. k < n) (sym all_steps) in_steps) in
            let skips_k =
              Course-SkipsAfter (subst (λ f. Course f c.outs c.stop) unforced c.course) j k p less
                at_j at_k in
            subst (λ o. Resulted b k o r') skips_k (g.reports k p at_k).resulted
      ]
