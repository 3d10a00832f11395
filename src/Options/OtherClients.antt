-- ===== src/Options/OtherClients.antt =====
-- The options of option.go for clients of databases, gRPC and SSH.
use mathlib.Core.List.{◌++◌}
use runn.Common.{ℕ, String, false, Option, none, some, List, [], ◌∷◌, if◌then◌else◌}
use runn.Errors.{wrapped, Result, err}
use runn.Bind
use runn.Bind.{Attempt, attempt}
use runn.RunnerConfig.{
  GrpcRunnerConfig, DbRunnerConfig, SshRunnerConfig, ConfigOption, configure, no_grpc, no_db,
  no_ssh, validate_ssh,
}
use runn.Book.{Book, DbRunner, GrpcRunner, SshRunner, SshLocalForward, SshcOption}
use runn.Book.Changes.{Changed, panics, fails, done, with_ok}
use runn.Book.Loader.{Loader}
use runn.Book.Clients.{grpc_with, new_db_runner, place_db, place_grpc, place_ssh}
use runn.Book.OtherSettings.{
  apply_grpc_config, ssh_options, ssh_forward, ssh_host, keyboard_option, keeps_session, start,
}
use runn.Book.Parsing.{clear_error}
use runn.Options.{BookOption, on_book, set_book, attempt_or_fail}
use runn.Options.HttpClients.{or_note}

-- `DBRunner`, with `nestTx` of db.go on the client.
unfoldable pub db_runner : (ℕ → Result ℕ) → String → ℕ → BookOption
unfolding on_book
db_runner nest_tx name client = on_book λ bk.
    let b = clear_error name bk in
    with_ok b (nest_tx client) λ nt. done (
      place_db b name
        (record { name = name; dsn = ""; client = some nt; host_rules = []; trace = none }))

-- A client that an error of an attempt leaves out, with the error noted.
abbrev attempt_or_note :
    {A : Type 0} → String → Book → Attempt A → (A → Changed Book) → Changed Book
attempt_or_note name bk Bind.Attempt.panics f = panics
attempt_or_note name bk (Bind.Attempt.fails e) f = or_note name bk (err e) f
attempt_or_note name bk (Bind.Attempt.yields a) f = f a

-- `GrpcRunner`
unfoldable pub grpc_runner : String → ℕ → BookOption
unfolding on_book
grpc_runner name cc =
    set_book λ bk. place_grpc (clear_error name bk) name (grpc_with name "" (some cc))

module _ (w : Loader) where
  abbrev traced_db : String → List (ConfigOption DbRunnerConfig) → DbRunner → Book → Changed Book
  traced_db name [] r bk = done (place_db bk name r)
  traced_db name (o ∷ opts) r bk =
      or_note name bk (configure (o ∷ opts) no_db)
        λ c. done (place_db bk name (record r { trace = c.trace }))

  abbrev db_with : String → String → List (ConfigOption DbRunnerConfig) → Book → Changed Book
  db_with name dsn opts bk = with_ok bk (new_db_runner w name dsn) λ r. traced_db name opts r bk

  -- `DBRunnerWithOptions` does not test for nil, and `delete(bk.runnerErrs, name)` reads the book.
  unfoldable pub db_runner_with_options :
      String → String → List (ConfigOption DbRunnerConfig) → BookOption
  unfolding configure new_db_runner
  db_runner_with_options name dsn opts t = elim t.book [
    | none ↦ panics
    | some bk ↦ elim (db_with name dsn opts (clear_error name bk)) [
      | panics ↦ panics
      | fails e b ↦ fails e (record t { book = some b })
      | done b ↦ done (record t { book = some b })
    ]
  ]

  abbrev grpc_configured :
      String → List (ConfigOption GrpcRunnerConfig) → GrpcRunner → Book → Changed Book
  grpc_configured name [] r bk = done (place_grpc bk name r)
  grpc_configured name (o ∷ opts) r bk = or_note name bk (configure (o ∷ opts) no_grpc) λ c.
      attempt_or_note name bk (apply_grpc_config w (λ p. p) c r) λ r'. done (place_grpc bk name r')

  -- `GrpcRunnerWithOptions`
  unfoldable pub grpc_runner_with_options :
      String → String → List (ConfigOption GrpcRunnerConfig) → BookOption
  unfolding on_book configure apply_grpc_config
  grpc_runner_with_options name target opts =
      on_book λ bk. grpc_configured name opts (grpc_with name target none) (clear_error name bk)

  abbrev checked_ssh : String → SshRunnerConfig → Book → Changed Book → Changed Book
  checked_ssh name c bk next = elim (validate_ssh c) [
    | some e ↦ fails (wrapped "invalid SSH runner" e) bk
    | none ↦ next
  ]

  -- The session starts at once if it is kept.
  abbrev started : SshRunner → ℕ → Attempt SshRunner
  started r client =
      if r.keep_session
      then Bind.◌>>=◌ (start w client r.local_forward) (λ _. Bind.Attempt.yields r)
      else Bind.Attempt.yields r

  abbrev ssh_runner_of :
      String → SshRunnerConfig → List SshcOption → Option SshLocalForward → Attempt SshRunner
  ssh_runner_of name c opts lf =
      Bind.◌>>=◌ (attempt (w.new_ssh_client (ssh_host w c) (opts ++ (keyboard_option w c ∷ []))))
        λ client.
          started
            (record {
              name = name;
              addr = "";
              client = some client;
              keep_session = keeps_session w c;
              local_forward = lf;
              opts = [];
              host_rules = [];
            })
            client

  abbrev ssh_with : String → SshRunnerConfig → Book → Changed Book
  ssh_with name c bk = checked_ssh name c bk (
      attempt_or_fail bk (ssh_options w false (w.dir bk.path) c) λ opts.
        attempt_or_fail bk (ssh_forward w name c)
          λ lf. attempt_or_fail bk (ssh_runner_of name c opts lf) λ r. done (place_ssh bk name r))

  -- `SSHRunnerWithOptions`
  unfoldable pub ssh_runner_with_options : String → List (ConfigOption SshRunnerConfig) → BookOption
  unfolding on_book configure validate_ssh ssh_options ssh_forward
  ssh_runner_with_options name opts =
      on_book λ bk.
        let b = clear_error name bk in with_ok b (configure opts no_ssh) λ c. ssh_with name c b

-- `SSHRunner`
unfoldable pub ssh_runner : String → ℕ → BookOption
unfolding on_book
ssh_runner name client = set_book λ bk. place_ssh (clear_error name bk) name (record {
  name = name;
  addr = "";
  client = some client;
  keep_session = false;
  local_forward = none;
  opts = [];
  host_rules = [];
})

-- `runnDBRunner`, `runnGrpcRunner` and `runnSSHRunner`
unfoldable pub runn_db_runner : String → DbRunner → BookOption
unfolding on_book
runn_db_runner name r = set_book λ bk. place_db bk name r

unfoldable pub runn_grpc_runner : String → GrpcRunner → BookOption
unfolding on_book
runn_grpc_runner name r = set_book λ bk. place_grpc bk name r

unfoldable pub runn_ssh_runner : String → SshRunner → BookOption
unfolding on_book
runn_ssh_runner name r = set_book λ bk. place_ssh bk name r
