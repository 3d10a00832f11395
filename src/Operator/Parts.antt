-- ===== src/Operator/Parts.antt =====
-- Each part of `stepFn` keeps the invariant of a round: it never panics, it records once if it returns
-- no error, and it leaves the records of the earlier steps alone.
use runn.Common.{ℕ, ◌≢◌, String, ◌≡◌, refl, Bool, true, false, not, Option, none, some, List}
use runn.Value.{Fields, Cookie}
use runn.Errors.{Error, cond_false, Result, ok, err}
use runn.Result.{no_step}
use runn.Trail.{RunnerType, include}
use runn.Store.Cookies.{record_to_cookie}
use runn.Store.View.{Distinct}
use runn.Bind
use runn.Bind.{Attempt, bind_keys}
use runn.Bind.Sorted.{sorted_keys}
use runn.Eval.{eval_cond}
use runn.Operator.{Runbook, StepState, Run, World, Reply, DumpRequest}
use runn.Operator.Exec.{change}
use runn.Operator.Record.{record_run, set_state}
use runn.Operator.Runners.{
  step_store, record_first, fail_on, run_test, run_dump, run_bind, run_request, bound, with_cookies,
  request_name, keep_included,
}
use runn.Operator.Fits.{
  step_keys, Fits-bind_vars, Fits-record_to_cookie, view-bind_vars, view-record_to_cookie,
  loop_index-record_to_cookie,
}
use runn.Operator.Frame.{Ensures}
use runn.Operator.Stages.{
  Stage, Done, fail_at, record_run-Stage, record_first-Stage, Stage-with_store, Stage-set_state,
  Fits-of,
}

module _ (b : Runbook) (i : ℕ) (start : Run) (earlier : List Fields) where
  module _ (distinct : Distinct (step_keys b)) where
    module _ (w : World) (run : Bool) (r : Run) (g : (Stage b i start earlier) run r) where
      test_ends :
          (t : Result String) (c : Result Bool) (cond : String)
          → Ensures
              (λ _. (Stage b i start earlier) true)
              (Done b i start earlier)
              (elim t [
                | err e ↦ fail_on w b "test" i e r
                | ok tree ↦ elim c [
                  | err e ↦ fail_on w b "test" i e r
                  | ok true ↦ record_first w b (not run) r
                  | ok false ↦ fail_on w b "test" i (cond_false cond tree) r
                ]
              ])
      test_ends (err e) c cond = (fail_at b i start earlier) run _ r g
      test_ends (ok t) (err e) cond = (fail_at b i start earlier) run _ r g
      test_ends (ok t) (ok true) cond = (record_first-Stage b i start earlier distinct) w run r g
      test_ends (ok t) (ok false) cond = (fail_at b i start earlier) run _ r g

      pub run_test-Stage :
          (cond : String)
          → Ensures
              (λ _. (Stage b i start earlier) true)
              (Done b i start earlier)
              (run_test w b i cond (not run) r)
      unfolding run_test
      run_test-Stage cond =
          test_ends (w.lang.build_tree cond (step_store w b (not run) r))
            (eval_cond w.lang cond (step_store w b (not run) r)) cond

      dump_ends :
          (o : Option Error)
          → Ensures
              (λ _. (Stage b i start earlier) true)
              (Done b i start earlier)
              (elim o [ some e ↦ fail_on w b "dump" i e r | none ↦ record_first w b (not run) r ])
      dump_ends (some e) = (fail_at b i start earlier) run _ r g
      dump_ends none = (record_first-Stage b i start earlier distinct) w run r g

      pub run_dump-Stage :
          (q : DumpRequest)
          → Ensures
              (λ _. (Stage b i start earlier) true)
              (Done b i start earlier)
              (run_dump w b i q (not run) r)
      unfolding run_dump
      run_dump-Stage q = dump_ends (w.dump q (step_store w b (not run) r))

      bind-Stage :
          (kv : Fields)
          → (Stage b i start earlier) run (record r { store = record r.store { bind_vars = kv } })
      bind-Stage kv =
          (Stage-with_store b i start earlier distinct) (record r.store { bind_vars = kv }) run r g
            (Fits-bind_vars b r.store ((Fits-of b i start earlier distinct) run r g.records) kv)
            refl (view-bind_vars r.store kv)

      bind_ends :
          (a : Attempt (Unit {0})) (kv : Fields)
          → a ≢ Bind.panics
          → Ensures
              (λ _. (Stage b i start earlier) true)
              (Done b i start earlier)
              (bound w b i (not run) r (a, kv))
      bind_ends Bind.panics kv safe = absurd (safe refl)
      bind_ends (Bind.fails e) kv safe =
          (fail_at b i start earlier) run _ (record r { store = record r.store { bind_vars = kv } })
            (bind-Stage kv)
      bind_ends (Bind.yields _) kv safe =
          (record_first-Stage b i start earlier distinct) w run
            (record r { store = record r.store { bind_vars = kv } }) (bind-Stage kv)

      pub run_bind-Stage :
          (cond : Fields)
          → ((store bind_vars : Fields)
              → (bind_keys w.lang w.node_parser cond store (sorted_keys cond) bind_vars).0
                ≢ Bind.panics)
          → Ensures
              (λ _. (Stage b i start earlier) true)
              (Done b i start earlier)
              (run_bind w b i cond (not run) r)
      unfolding run_bind
      run_bind-Stage cond safe =
          let store = step_store w b (not run) r in
          bind_ends
            (bind_keys w.lang w.node_parser cond store (sorted_keys cond) r.store.bind_vars).0
            (bind_keys w.lang w.node_parser cond store (sorted_keys cond) r.store.bind_vars).1
            (safe store r.store.bind_vars)

      cookies-Stage :
          (c : Option (ℕ × List Cookie)) → (Stage b i start earlier) run (with_cookies w b c r)
      cookies-Stage none = g
      cookies-Stage (some (now, cookies)) =
          (Stage-with_store b i start earlier distinct) (record_to_cookie now r.store cookies) run r
            g
            (Fits-record_to_cookie b r.store ((Fits-of b i start earlier distinct) run r g.records)
              now cookies)
            (loop_index-record_to_cookie r.store now cookies)
            (view-record_to_cookie r.store now cookies)

    keep_included-result :
        (w : World) (t : RunnerType) (reply : Reply) (st : StepState)
        → st.result ≡ no_step
        → (keep_included w b t reply st).result ≡ no_step
    keep_included-result w include reply st h = h
    keep_included-result w _ reply st h = h

    module _ (w : World) (r : Run) where
      request_ends :
          (o : Result Fields) (what : String)
          → (Stage b i start earlier) false r
          → Ensures
              (λ _. (Stage b i start earlier) true)
              (Done b i start earlier)
              (elim o [ err e ↦ fail_on w b what i e r | ok v ↦ change (record_run b v) r ])
      request_ends (err e) what g = (fail_at b i start earlier) false _ r g
      request_ends (ok v) what g = (record_run-Stage b i start earlier distinct) v r g

    pub run_request-Stage :
        (w : World) (t : RunnerType) (r : Run)
        → (Stage b i start earlier) false r
        → Ensures
            (λ _. (Stage b i start earlier) true)
            (Done b i start earlier)
            (run_request w b t i r)
    unfolding run_request
    run_request-Stage w t r g =
        let reply = w.request t r i in
        let r₁ = with_cookies w b reply.cookies r in
        request_ends w (set_state i (keep_included w b t reply) r₁) reply.outcome
          (request_name w b t)
          ((Stage-set_state b i start earlier distinct) (keep_included w b t reply) false r₁
            (keep_included-result w t reply) (cookies-Stage w false r g reply.cookies))
