-- ===== src/Construct.antt =====
-- `New` of operator.go: from options to an operator, with its clients and its steps.
pub mod Names
pub mod Built
use Prim.Native.String.{◌++◌}
use mathlib.Core.List.{◌++◌ as append}
use runn.Common.{
  ℕ, suc, String, Bool, true, false, Option, none, some, List, [], ◌∷◌, ◌==◌, ◌||◌, ◌&&◌, not, eqb,
  map, length, get_elem?, if◌then◌else◌, Dict, insert,
}
use runn.Common.Text.{decimal}
use runn.Common.Replacing.{cut}
use package.text.Mathlib.Text.{starts_with}
use runn.Value.{Value, bool, dict, Fields}
use runn.Value.Maps.{get}
use runn.Errors.{Error, message, wrapped, append_error, Result, ok, err}
use runn.CdpFunctions.{contains}
use runn.Bind
use runn.Bind.{Attempt, panics, fails, yields, attempt, ◌>>=◌}
use runn.Operator.{Step}
use runn.LoopSection.{LoopReader}
use runn.AppendStep.{Clients, append_step}
use runn.RunnerConfig.{HttpRunnerConfig, no_http}
use runn.Book.{
  Book, HostRule, HttpRunner, HttpClient, HttpValidator, nop, open_api3, DbRunner, GrpcRunner,
  CdpRunner, SshRunner, new_book,
}
use runn.Book.Changes
use runn.Book.Loader.{Loader, generate_operator_root, new_http_validator}
use runn.Book.SetUp.{
  Renewal, set_up_all, set_up_http, set_up_db, set_up_grpc, set_up_cdp, set_up_ssh,
}
use runn.Options.{Target, BookOption}
use runn.Options.Applying.{apply_options}
use runn.Scopes.{Scopes}

-- Of the operator, what the book does not hold as it is.
pub record Operator : Type 0 where
  pub book : Book
  pub root : String
  pub http_runners : Dict HttpRunner
  pub db_runners : Dict DbRunner
  pub grpc_runners : Dict GrpcRunner
  pub cdp_runners : Dict CdpRunner
  pub ssh_runners : Dict SshRunner
  pub number_of_steps : ℕ
  pub steps : List Step

unfoldable pub names : {V : Type 0} → Dict V → List String
names [] = []
names ((k, v) ∷ m) = k ∷ names m

-- The keys that the loops over the kinds collect, or the error at one that is there already.
unfoldable pub add_names : List String → List String → Attempt (List String)
add_names keys [] = yields keys
add_names keys (k ∷ more) =
    let rest = add_names (k ∷ keys) more in
    if contains keys k then fails (message ("duplicate runner names: " ++ k)) else rest

-- `o.httpRunners` adds its names without a test.
unfoldable pub check_names : Clients → Attempt (List String)
unfolding add_names
check_names c = do
  db ← add_names c.http c.db
  grpc ← add_names db c.grpc
  cdp ← add_names grpc c.cdp
  add_names cdp c.ssh

unfoldable pub runner_error : Option Error → Dict Error → Option Error
runner_error merr [] = merr
runner_error merr ((k, e) ∷ errs) = runner_error (some (append_error merr (wrapped k e))) errs

-- Errors of runners are passed over when a runbook is only loaded.
unfoldable pub check_runners : Book → Attempt (Unit {0})
unfolding runner_error
check_runners bk = elim (runner_error none bk.runner_errs) [
  | none ↦ yields tt
  | some e ↦ if bk.load_only then yields tt else fails (wrapped "failed to add runners" e)
]

-- `bk.stepKeys[i]` panics without a key.
abbrev pub key_at : Book → ℕ → Attempt String
key_at bk i =
    if bk.use_map
    then elim (get_elem? bk.step_keys i) [ none ↦ panics | some k ↦ yields k ]
    else yields (decimal i)

-- A step that fails is passed over when a runbook is only loaded.
abbrev pub kept_if : Bool → List Step → Attempt (List Step) → Attempt (List Step)
kept_if only steps panics = panics
kept_if only steps (fails e) =
    if only then yields steps else fails (wrapped "failed to append step" e)
kept_if only steps (yields steps') = yields steps'

module _ (r : LoopReader) (c : Clients) where
  unfoldable pub append_steps : Book → ℕ → List Fields → List Step → Attempt (List Step)
  unfolding append_step decimal
  append_steps bk i [] steps = yields steps
  append_steps bk i (s ∷ raw) steps = do
    key ← key_at bk i
    steps' ← kept_if bk.load_only steps (append_step c r key s steps)
    append_steps bk (suc i) raw steps'

abbrev pub clients_of : Operator → Clients
clients_of o = record {
  http = names o.http_runners;
  db = names o.db_runners;
  grpc = names o.grpc_runners;
  cdp = names o.cdp_runners;
  ssh = names o.ssh_runners;
}

module _ (w : Loader) (n : Renewal) (r : LoopReader) where
  abbrev pub with_clients : Book → String → Attempt Operator
  with_clients bk root = do
    http ← set_up_all (set_up_http w bk) bk.http_runners
    db ← set_up_all (set_up_db n bk) bk.db_runners
    grpc ← set_up_all (set_up_grpc n bk) bk.grpc_runners
    cdp ← set_up_all (set_up_cdp n bk) bk.cdp_runners
    ssh ← set_up_all (set_up_ssh n bk) bk.ssh_runners
    yields (record {
      book = bk;
      root = root;
      http_runners = http;
      db_runners = db;
      grpc_runners = grpc;
      cdp_runners = cdp;
      ssh_runners = ssh;
      number_of_steps = length bk.raw_steps;
      steps = [];
    })

  abbrev pub with_steps : Book → Operator → Attempt Operator
  with_steps bk o = do
    checked ← check_names (clients_of o)
    runners ← check_runners bk
    steps ← append_steps r (clients_of o) bk 0 bk.raw_steps []
    yields (record o { steps = steps })

  abbrev pub root_of : Book → Attempt String
  root_of bk = elim (generate_operator_root w bk) [
    | err e ↦ fails (wrapped "failed to generate root path" e)
    | ok root ↦ yields root
  ]

  unfoldable pub operator_of : Book → Attempt Operator
  unfolding generate_operator_root set_up_all set_up_http set_up_db set_up_grpc set_up_cdp
      set_up_ssh check_names check_runners append_steps names
  operator_of bk = do root ← root_of bk; o ← with_clients bk root; with_steps bk o

  abbrev operator_for : Changes.Changed Target → Attempt Operator
  operator_for Changes.Changed.panics = panics
  operator_for (Changes.Changed.fails e t) = fails e
  operator_for (Changes.Changed.done t) = elim t.book [ none ↦ panics | some bk ↦ operator_of bk ]

  -- `New`, without the random ID.
  unfoldable pub new : List BookOption → Scopes → Attempt Operator
  unfolding apply_options operator_of new_book
  new opts g = operator_for (apply_options opts new_book g)
