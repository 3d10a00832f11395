-- ===== src/Book/Loader.antt =====
-- What stands outside of the model where books are made: files and paths, YAML, the packages that
-- connect to other systems, the expression language, and the evaluation of `json://` variables.
use runn.Common.{
  ℕ, String, Bool, true, false, Option, none, some, List, ◌==◌, ◌&&◌, ◌||◌, if◌then◌else◌,
}
use runn.Common.Int.{ℤ}
use text.Mathlib.Text.{starts_with}
use runn.Value.{Value, Fields}
use runn.Errors.{Error, message, wrapped, Result, ok, err}
use runn.RunnerConfig.{HttpRunnerConfig, GrpcRunnerConfig, DbRunnerConfig, SshRunnerConfig}
use runn.Book.{Book, HttpValidator, nop, open_api3, SshcOption, SshLocalForward}

pub record Loader : Type 0 where
  -- `os.Getwd`, `filepath.Dir` and `filepath.Join`
  pub getwd : Result String
  pub dir : String → String
  pub join : String → String → String
  -- `readFile` of path.go, and `os.Stat`
  pub read_file : String → Result String
  pub stat : String → Option Error
  -- `yaml.Marshal` and `yaml.Unmarshal` of a runner's map
  pub marshal : Fields → Result String
  pub unmarshal_http : String → Result HttpRunnerConfig
  pub unmarshal_grpc : String → Result GrpcRunnerConfig
  pub unmarshal_db : String → Result DbRunnerConfig
  pub unmarshal_ssh : String → Result SshRunnerConfig
  -- `url.Parse`, `dburl.Parse` and `duration.Parse`, which gives a duration also beside an error
  pub parse_url : String → Result String
  pub parse_dsn : String → Option Error
  pub parse_duration : String → ℤ × Option Error
  -- the loader of OpenAPI documents, and their validation
  pub load_uri : String → Result ℕ
  pub load_doc_file : String → Result ℕ
  pub validate_doc : ℕ → Option Error
  -- the options of a new browser
  pub browser_opts : ℕ
  -- `sshc.NewClient`, and `startSession` of ssh.go
  pub new_ssh_client : String → List SshcOption → Result ℕ
  pub start_session : ℕ → Option SshLocalForward → Option Error
  -- `EvalExpand` on the store of `loadBook`, and `evaluateSchema`
  pub eval_expand : Value → Fields → Result Value
  pub evaluate_schema : Value → String → Option Fields → Result Value

module _ (w : Loader) where
  -- `generateOperatorRoot`
  unfoldable pub generate_operator_root : Book → Result String
  generate_operator_root bk = if bk.path == "" then w.getwd else ok (w.dir bk.path)

  -- `fp`
  unfoldable pub fp : String → String → String
  fp p root = if starts_with p "/" then p else w.join root p

  -- The document of a location.
  abbrev load_doc : String → Result ℕ
  load_doc l =
      if starts_with l "https://" || starts_with l "http://"
      then elim (w.parse_url l) [ err e ↦ err e | ok u ↦ w.load_uri u ]
      else w.load_doc_file l

  abbrev loaded_doc : HttpRunnerConfig → Result (Option ℕ)
  loaded_doc c =
      if c.open_api3_doc_location == ""
      then ok c.open_api3_doc
      else elim (load_doc c.open_api3_doc_location) [
        | err e ↦ err e
        | ok doc ↦ elim (w.validate_doc doc) [
          | some e ↦ err (wrapped "openapi3 document validation error" e)
          | none ↦ ok (some doc)
        ]
      ]

  unfoldable pub new_open_api3_validator : HttpRunnerConfig → Result HttpValidator
  new_open_api3_validator c = elim (loaded_doc c) [
    | err e ↦ err e
    | ok none ↦ err (message "cannot load openapi3 document")
    | ok (some doc) ↦ ok (open_api3 c.skip_validate_request c.skip_validate_response doc)
  ]

  abbrev no_doc : Option ℕ → Bool
  no_doc none = true
  no_doc (some doc) = false

  unfoldable pub new_http_validator : HttpRunnerConfig → Result HttpValidator
  unfolding new_open_api3_validator
  new_http_validator c =
      if c.open_api3_doc_location == "" && no_doc c.open_api3_doc
      then ok nop
      else new_open_api3_validator c
