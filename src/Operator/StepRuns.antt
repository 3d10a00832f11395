-- ===== src/Operator/StepRuns.antt =====
-- The loop of a step settles: it returns, and has recorded as its error tells.
use runn.Common.{
  ℕ, zero, suc, ◌+◌, ◌<◌, ◌≡◌, refl, inl, inr, String, Bool, true, false, Option, none, some, List,
  ◌==◌, Bool-cases, arith,
}
use runn.Value.{Fields}
use runn.Errors.{Error, wrapped, failed_on, Result, ok, err}
use runn.Store.View.{Distinct}
use runn.Operator.{Loop, Step, Runbook, Run, World}
use runn.Operator.Exec.{Returned}
use runn.Operator.RunStep.{set_round, check_until, retry_failed, after_loop, rounds}
use runn.Operator.Fits.{step_keys, Fits-loop_index, view-loop_index}
use runn.Operator.Frame.{Moved, Moved-refl, Moved-trans, Moved-store, IsClear, Full}
use runn.Operator.Stages.{Left}
use runn.Operator.StepFn.{BindsSafely, step_fn-Done}
use runn.Operator.StepRounds.{
  AtRound, Full-same, Moved-set_round, Open-round, failed_round, Settled-trans, Settles,
}

module _ (b : Runbook) (i : ℕ) (earlier : List Fields) where
  module _ (w : World) (l : Loop) where
    after_loop-Settles :
        (success : Bool) (bt : String) (r : Run)
        → IsClear i r
        → Full b earlier r
        → (Settles b i earlier) r (after_loop w b i l success bt r)
    after_loop-Settles true bt r c g =
        (none, r, refl, record { moved = Moved-refl i r; clear = c; records = g })
    after_loop-Settles false bt r c g =
        let r' = record r { store = record r.store { loop_index = none } } in
        (
          retry_failed w b i l bt,
          r',
          refl,
          record {
            moved = Moved-store i r r'.store;
            clear = c;
            records = inr (
                (Full-same b i earlier) r r' (Fits-loop_index b r.store g.fits none)
                  (view-loop_index r.store none) g);
          },
        )

    -- The first round is made.
    abbrev Starts : ℕ → ℕ → Run → Type 0
    Starts left j r = j ≡ 0 → (0 < left) × (w.continues r 0 ≡ true)

    -- What follows a round without an error, if the rounds after it settle the step.
    module _ (r : Run) (c : IsClear i r) (g : Full b earlier r) (next : String → Returned)
        (rest : (bt : String) → (Settles b i earlier) r (next bt)) where
      until-Settles :
          (x : Result (String × Bool))
          → (Settles b i earlier) r (elim x [
            | err e ↦ some (some (failed_on "loop" i e), r)
            | ok (bt, true) ↦ after_loop w b i l true bt r
            | ok (bt, false) ↦ next bt
          ])
      until-Settles (err e) =
          (_, r, refl, record { moved = Moved-refl i r; clear = c; records = inr g })
      until-Settles (ok (bt, true)) = after_loop-Settles true bt r c g
      until-Settles (ok (bt, false)) = rest bt

      blank-Settles :
          (blank : Bool) (bt : String) (x : Result (String × Bool))
          → (Settles b i earlier) r (elim blank [
            | true ↦ next bt
            | false ↦ elim x [
              | err e ↦ some (some (failed_on "loop" i e), r)
              | ok (bt, true) ↦ after_loop w b i l true bt r
              | ok (bt, false) ↦ next bt
            ]
          ])
      blank-Settles true bt x = rest bt
      blank-Settles false bt x = until-Settles x

    Settles-trans :
        {p q : Run} (x : Returned)
        → Moved i p q
        → (Settles b i earlier) q x
        → (Settles b i earlier) p x
    Settles-trans x m (e, r, h, g) = (e, r, h, (Settled-trans b i earlier) e r m g)

    -- A round, from what `stepFn` has returned in it.
    module _ (r r' : Run) (moved : Moved i r r') (c : IsClear i r') where
      ran-Settles :
          (e : Option Error)
          → Left b i r earlier e r'
          → (success : Bool) (bt : String) (next : String → Run → Returned)
          → (Full b earlier r' → (bt : String) → (Settles b i earlier) r' (next bt r'))
          → (Settles b i earlier) r (
              let returned : Returned = some (e, r') in
              elim returned [
                | none ↦ none
                | some (some e, r') ↦ some (some (wrapped "loop failed" e), r')
                | some (none, r') ↦ elim (l.until == "") [
                  | true ↦ next bt r'
                  | false ↦ elim (check_until w b l r') [
                    | err e ↦ some (some (failed_on "loop" i e), r')
                    | ok (bt, true) ↦ after_loop w b i l true bt r'
                    | ok (bt, false) ↦ next bt r'
                  ]
                ]
              ])
      ran-Settles none g success bt next rest = Settles-trans _ moved (
          blank-Settles r' c g (λ bt. next bt r') (rest g) (l.until == "") bt
            (check_until w b l r'))
      ran-Settles (some e) g success bt next rest = (
        _,
        r',
        refl,
        record { moved = moved; clear = c; records = (failed_round b i earlier) r' g },
      )

    -- The back-off ends the loop after a round.
    stopped :
        (left j : ℕ) (success : Bool) (bt : String) (r : Run)
        → Starts (suc left) j r
        → IsClear i r
        → w.continues r j ≡ false
        → (AtRound b i earlier) j r
        → (Settles b i earlier) r (after_loop w b i l success bt r)
    stopped left j success bt r starts c stops (inl (first, g)) =
        let (_, goes) = starts first in absurd (ground arith)
    stopped left j success bt r starts c stops (inr (later, g)) =
        after_loop-Settles success bt r c g

    module _ (distinct : Distinct (step_keys b)) (s : Step) (safe : BindsSafely w s) where
      pub rounds-Settles :
          (left j : ℕ) (success : Bool) (bt : String) (r : Run)
          → Starts left j r
          → IsClear i r
          → (AtRound b i earlier) j r
          → (Settles b i earlier) r (rounds w b i s l left j success bt r)
      unfolding rounds
      rounds-Settles zero j success bt r starts c (inl (first, g)) =
          let (impossible, _) = starts first in absurd (ground arith)
      rounds-Settles zero j success bt r starts c (inr (later, g)) =
          after_loop-Settles success bt r c g
      rounds-Settles (suc left) j success bt r starts c g =
          let (e, r', ran, d) =
            step_fn-Done b i (set_round w b i (some j) r) earlier distinct w s safe
              ((Open-round b i earlier) w j r g) in
          let moved = Moved-trans i ((Moved-set_round b i earlier) w (some j) r) d.moved in
          elim (Bool-cases (w.continues r j)) [
            | inl goes ↦
                rw (goes, ran)
                  (ran-Settles r r' moved d.clear e d.records success bt
                    (λ bt' r'. rounds w b i s l left (j + 1) success bt' r')
                    λ full bt'.
                      rounds-Settles left (j + 1) success bt' r' (λ e. absurd (ground arith))
                        d.clear (inr (ground arith, full)))
            | inr stops ↦ rw stops (stopped left j success bt r starts c stops g)
          ]
