-- ===== src/Operator/Runners.antt =====
-- The runners of a step: test.go, dump.go and bind.go, and the call of the others.
use runn.Common.{ℕ, String, Bool, true, false, Option, none, some, List, if◌then◌else◌}
use runn.Value.{bool, dict, Fields, end, Cookie}
use runn.Value.Maps.{put}
use runn.Errors.{Error, cond_false, failed_on, ok, err}
use runn.Trail.{RunnerType, http, db, grpc, cdp, ssh, exec, include}
use runn.Store.{previous, latest}
use runn.Store.View.{or_empty}
use runn.Store.Root.{to_map}
use runn.Store.Cookies.{record_to_cookie}
use runn.Eval.{eval_cond}
use runn.Bind
use runn.Bind.{Attempt, bind_keys}
use runn.Bind.Sorted.{sorted_keys}
use runn.Operator.{DumpRequest, Runbook, StepState, Run, Reply, World}
use runn.Operator.Exec.{Exec, panics, returns, goes_on, change}
use runn.Operator.Record.{record_run, set_state}

module _ (w : World) (b : Runbook) where
  -- What an expression reads while the step has not recorded (`first`), or has.
  unfoldable pub step_store : Bool → Run → Fields
  step_store first r =
      let root = put "included" (bool b.included) (to_map w.env r.store) in
      if first
      then put "previous" (dict (or_empty (latest r.store))) root
      else put "current" (dict (or_empty (latest r.store)))
          (put "previous" (dict (or_empty (previous r.store))) root)

  -- `if first { o.record(nil) }`
  unfoldable pub record_first : Bool → Run → Exec (Unit {0})
  record_first first r = if first then change (record_run b end) r else goes_on tt r

  -- A runner returns its error to `runStep`, which names the step and returns.
  abbrev pub fail_on : String → ℕ → Error → Run → Exec (Unit {0})
  fail_on what i e r = returns (some (failed_on what i e)) r

  -- `testRunner.Run`; the tree is built before the condition is evaluated.
  unfoldable pub run_test : ℕ → String → Bool → Run → Exec (Unit {0})
  unfolding step_store record_first
  run_test i cond first r = elim (w.lang.build_tree cond (step_store first r)) [
    | err e ↦ fail_on "test" i e r
    | ok tree ↦ elim (eval_cond w.lang cond (step_store first r)) [
      | err e ↦ fail_on "test" i e r
      | ok true ↦ record_first first r
      | ok false ↦ fail_on "test" i (cond_false cond tree) r
    ]
  ]

  -- `dumpRunner.Run`: the value goes to a file or the output.
  unfoldable pub run_dump : ℕ → DumpRequest → Bool → Run → Exec (Unit {0})
  unfolding step_store record_first
  run_dump i q first r = elim (w.dump q (step_store first r)) [
    | some e ↦ fail_on "dump" i e r
    | none ↦ record_first first r
  ]

  abbrev pub bound : ℕ → Bool → Run → Attempt (Unit {0}) × Fields → Exec (Unit {0})
  bound i first r (Bind.panics, kv) = panics
  bound i first r (Bind.fails e, kv) =
      fail_on "bind" i e (record r { store = record r.store { bind_vars = kv } })
  bound i first r (Bind.yields _, kv) =
      record_first first (record r { store = record r.store { bind_vars = kv } })

  -- `bindRunner.Run`: the variables of the rounds before an error stay bound.
  unfoldable pub run_bind : ℕ → Fields → Bool → Run → Exec (Unit {0})
  unfolding step_store record_first
  run_bind i cond first r = bound i first r (
      bind_keys w.lang w.node_parser cond (step_store first r) (sorted_keys cond) r.store.bind_vars)

  abbrev pub request_name : RunnerType → String
  request_name http = "http request"
  request_name db = "db query"
  request_name grpc = "gRPC request"
  request_name cdp = "cdp action"
  request_name ssh = "ssh command"
  request_name exec = "exec command"
  request_name include = "include"
  request_name _ = ""

  abbrev pub with_cookies : Option (ℕ × List Cookie) → Run → Run
  with_cookies none r = r
  with_cookies (some (now, cookies)) r = record r { store = record_to_cookie now r.store cookies }

  abbrev pub keep_included : RunnerType → Reply → StepState → StepState
  keep_included include reply st = record st { included_run = reply.included_run }
  keep_included _ reply st = st

  -- One of the runners http, db, grpc, cdp, ssh, exec and include.
  unfoldable pub run_request : RunnerType → ℕ → Run → Exec (Unit {0})
  run_request t i r =
      let reply = w.request t r i in
      let r' = set_state i (keep_included t reply) (with_cookies reply.cookies r) in
      elim reply.outcome [
        | err e ↦ fail_on (request_name t) i e r'
        | ok v ↦ change (record_run b v) r'
      ]
