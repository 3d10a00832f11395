-- ===== src/Operator/StepFn.antt =====
-- `stepFn` as a whole.
use runn.Common.{
  ℕ, String, ◌≡◌, ◌≢◌, refl, ap, inl, inr, Bool, true, false, not, Option, none, some, List, ◌==◌,
  if◌then◌else◌, Option-cases,
}
use runn.Value.{Fields}
use runn.Errors.{Error, step_skipped, invalid_runner}
use runn.Store.View.{Distinct}
use runn.Bind
use runn.Bind.{bind_keys}
use runn.Bind.Sorted.{sorted_keys}
use runn.Operator.{Step, Runbook, Run, World}
use runn.Operator.Exec.{Exec, panics, returns, goes_on, ◌>>=◌, ◌>>◌, pure, return_with, function}
use runn.Operator.Record.{set_state, clear_result, request_type}
use runn.Operator.Runners.{run_test, run_dump, run_bind, run_request}
use runn.Operator.RunStep.{request_part, dump_part, bind_part, test_part, last_part, step_fn}
use runn.Operator.Fits.{step_keys}
use runn.Operator.Frame.{
  Moved-set_state, store-set_state, state-set_state, Open, Ensures, Ensures-bind,
}
use runn.Operator.Stages.{Stage, Done, fail_at, Recorded-same}
use runn.Operator.Parts.{run_test-Stage, run_dump-Stage, run_bind-Stage, run_request-Stage}

-- The conditions that `bind:` evaluates never give a key that cannot be compared.
abbrev pub BindsSafely : World → Step → Type 0
BindsSafely w s =
    (cond : Fields)
    → s.bind_cond ≡ some cond
    → (store bind_vars : Fields)
    → (bind_keys w.lang w.node_parser cond store (sorted_keys cond) bind_vars).0 ≢ Bind.panics

module _ (b : Runbook) (i : ℕ) (start : Run) (earlier : List Fields)
    (distinct : Distinct (step_keys b)) (w : World) where
  abbrev Passes : Exec Bool → Type 0
  Passes = Ensures (λ run r. Stage b i start earlier run r) (Done b i start earlier)

  -- A runner that has run sets the variable.
  now_true :
      (m : Run → Exec (Unit {0})) (r : Run)
      → Ensures (λ _. Stage b i start earlier true) (Done b i start earlier) (m r)
      → Passes ((m >> pure true) r)
  now_true m r h =
      Ensures-bind (λ _. Stage b i start earlier true) (λ run. Stage b i start earlier run)
        (Done b i start earlier) m (λ _. pure true) r h (λ a r' g. g)

  request_part-Stage :
      (s : Step) (r : Run) → Stage b i start earlier false r → Passes (request_part w b i s r)
  unfolding request_part
  request_part-Stage s r g = elim (Option-cases (request_type s)) [
    | inl e ↦ rw (e, request_part) g
    | inr (t, e) ↦
        rw (e, request_part)
          (now_true (run_request w b t i) r (run_request-Stage b i start earlier distinct w t r g))
  ]

  dump_part-Stage :
      (s : Step) (run : Bool) (r : Run)
      → Stage b i start earlier run r
      → Passes (dump_part w b i s run r)
  unfolding dump_part
  dump_part-Stage s run r g = elim (Option-cases s.dump_request) [
    | inl e ↦ rw (e, dump_part) g
    | inr (q, e) ↦
        rw (e, dump_part)
          (now_true (run_dump w b i q (not run)) r
            (run_dump-Stage b i start earlier distinct w run r g q))
  ]

  bind_part-Stage :
      (s : Step) (run : Bool) (r : Run)
      → BindsSafely w s
      → Stage b i start earlier run r
      → Passes (bind_part w b i s run r)
  unfolding bind_part
  bind_part-Stage s run r safe g = elim (Option-cases s.bind_cond) [
    | inl e ↦ rw (e, bind_part) g
    | inr (cond, e) ↦
        rw (e, bind_part)
          (now_true (run_bind w b i cond (not run)) r
            (run_bind-Stage b i start earlier distinct w run r g cond (safe cond e)))
  ]

  -- `skipTest` returns a skip if nothing has run, and no error otherwise.
  skipped_test :
      (run : Bool) (r : Run)
      → Stage b i start earlier run r
      → Done b i start earlier (if run then none else some step_skipped) r
  skipped_test true r g = record {
    moved = g.moved;
    clear = g.clear;
    same_round = g.same_round;
    records = g.records;
  }
  skipped_test false r g = fail_at b i start earlier false step_skipped r g

  test_choice :
      (cond : String) (blank skips run : Bool) (r : Run)
      → Stage b i start earlier run r
      → Passes (
          (if blank
              then pure run
              else if skips
              then return_with (if run then none else some step_skipped)
              else (run_test w b i cond (not run) >> pure true))
            r)
  test_choice cond true skips run r g = g
  test_choice cond false true run r g = skipped_test run r g
  test_choice cond false false run r g =
      now_true (run_test w b i cond (not run)) r
        (run_test-Stage b i start earlier distinct w run r g cond)

  test_part-Stage :
      (s : Step) (run : Bool) (r : Run)
      → Stage b i start earlier run r
      → Passes (test_part w b i s run r)
  unfolding test_part
  test_part-Stage s run r g = elim (Option-cases s.test_cond) [
    | inl e ↦ rw (e, test_part) g
    | inr (cond, e) ↦ rw (e, test_part) (test_choice cond (cond == "") b.skip_test run r g)
  ]

  last_part-Done :
      (run : Bool) (r : Run)
      → Stage b i start earlier run r
      → Ensures (Done b i start earlier) (Done b i start earlier) (last_part w b i run r)
  last_part-Done true r g = record {
    moved = g.moved;
    clear = g.clear;
    same_round = g.same_round;
    records = g.records;
  }
  last_part-Done false r g = fail_at b i start earlier false (invalid_runner i) r g

  function_returns :
      (x : Exec (Option Error))
      → Ensures (Done b i start earlier) (Done b i start earlier) x
      → (e : Option Error) × (r : Run) × (function x ≡ some (e, r)) × Done b i start earlier e r
  function_returns panics h = absurd h
  function_returns (returns e r) h = (e, r, refl, h)
  function_returns (goes_on e r) h = (e, r, refl, h)

  cleared-Stage :
      Open b earlier start → Stage b i start earlier false (set_state i clear_result start)
  cleared-Stage o = record {
    moved = Moved-set_state i clear_result start;
    clear = λ st' k.
        let (st, was, same) = state-set_state i clear_result start st' k in ap (λ s. s.result) same;
    same_round = ap (λ s. s.loop_index) (store-set_state i clear_result start);
    records =
        Recorded-same b i start earlier distinct false start (set_state i clear_result start)
          (store-set_state i clear_result start) o;
  }

  -- If the keys of the steps differ, the store holds the records of the earlier steps and, in a later
  -- round, that of the round before, and the step's `bind:` gives keys that can be compared, then
  -- `stepFn` returns. Without an error the step then has one record, and with one at most one. The
  -- records of the earlier steps, the states of the other steps and the round are as before.
  pub step_fn-Done :
      (s : Step)
      → BindsSafely w s
      → Open b earlier start
      → (e : Option Error) × (r : Run) × (step_fn w b i s start ≡ some (e, r))
        × Done b i start earlier e r
  unfolding step_fn
  step_fn-Done s safe o =
      let S = λ (run : Bool) (r : Run). Stage b i start earlier run r in
      let D = Done b i start earlier in
      function_returns _ (
        Ensures-bind S D D (request_part w b i s)
          (λ run₁. dump_part w b i s run₁ >>= λ run₂. bind_part w b i s run₂ >>= λ run₃.
            test_part w b i s run₃ >>= λ run₄. last_part w b i run₄)
          (set_state i clear_result start) (request_part-Stage s _ (cleared-Stage o))
          λ run₁ r₁ g₁.
            Ensures-bind S D D (dump_part w b i s run₁)
              (λ run₂. bind_part w b i s run₂ >>= λ run₃.
                test_part w b i s run₃ >>= λ run₄. last_part w b i run₄)
              r₁ (dump_part-Stage s run₁ r₁ g₁)
              λ run₂ r₂ g₂.
                Ensures-bind S D D (bind_part w b i s run₂)
                  (λ run₃. test_part w b i s run₃ >>= λ run₄. last_part w b i run₄) r₂
                  (bind_part-Stage s run₂ r₂ safe g₂)
                  λ run₃ r₃ g₃.
                    Ensures-bind S D D (test_part w b i s run₃) (λ run₄. last_part w b i run₄) r₃
                      (test_part-Stage s run₃ r₃ g₃) last_part-Done)
