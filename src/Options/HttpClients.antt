-- ===== src/Options/HttpClients.antt =====
-- The options of option.go for clients of HTTP.
use runn.Common.{ℕ, String, Option, none, some, List, [], ◌∷◌, ◌==◌, if◌then◌else◌}
use runn.Value.{text}
use runn.Errors.{message, Result, ok, err}
use runn.StepKeys.{validate_runner_key}
use runn.RunnerConfig.{HttpRunnerConfig, ConfigOption, configure, no_http}
use runn.Book.{Book, HttpRunner, HttpClient, HttpValidator}
use runn.Book.Changes.{Changed, panics, fails, done, ◌>>=◌, with_ok}
use runn.Book.Loader.{Loader, generate_operator_root, new_http_validator}
use runn.Book.Clients.{new_http_runner, new_http_runner_with_handler, place_http}
use runn.Book.HttpSettings.{set_redirect, set_boundary, set_timeout, located, apply_http_config}
use runn.Book.Parsing.{parse_runner, noted, clear_error, note_error}
use runn.Options.{BookOption, on_book, set_book}

-- `if err != nil { bk.runnerErrs[name] = err; return nil }`
abbrev pub or_note : {A : Type 0} → String → Book → Result A → (A → Changed Book) → Changed Book
or_note name bk (err e) f = done (note_error name e bk)
or_note name bk (ok a) f = f a

-- The runner is not in the book while it takes its settings.
abbrev pub placed : Book → (HttpRunner → Changed Book) → Changed HttpRunner → Changed Book
placed bk f panics = panics
placed bk f (fails e r) = fails e bk
placed bk f (done r) = f r

module _ (w : Loader) where
  abbrev without_options : String → String → Book → Changed Book
  without_options name dsn bk = elim (validate_runner_key name) [
    | some e ↦ fails e bk
    | none ↦ noted name (parse_runner w name (text dsn) bk)
  ]

  -- Only a location sets the validator, not a document that an option has loaded.
  abbrev with_validator : String → HttpRunnerConfig → Book → HttpRunner → Changed Book
  with_validator name c bk r =
      if c.open_api3_doc_location == ""
      then done (place_http bk name r)
      else or_note name bk (new_http_validator w c)
          (λ v. done (place_http bk name (record r { validator = v })))

  abbrev with_options : String → String → List (ConfigOption HttpRunnerConfig) → Book → Changed Book
  with_options name dsn opts bk = or_note name bk (configure opts no_http) λ c.
      or_note name bk (new_http_runner w name dsn) λ r.
        placed bk (with_validator name c bk)
          (set_redirect c r >>= λ r'. set_timeout w c (set_boundary c r'))

  -- `Runner`
  unfoldable pub runner : String → String → List (ConfigOption HttpRunnerConfig) → BookOption
  unfolding on_book configure parse_runner new_http_runner new_http_validator validate_runner_key
  runner name dsn [] = on_book λ bk. without_options name dsn (clear_error name bk)
  runner name dsn (o ∷ opts) = on_book λ bk. with_options name dsn (o ∷ opts) (clear_error name bk)

  abbrev validated : String → Result HttpValidator → Book → Changed HttpRunner → Changed Book
  validated name v bk panics = panics
  validated name v bk (fails e r) = fails e (place_http bk name r)
  validated name v bk (done r) =
      or_note name (place_http bk name r) v
        (λ hv. done (place_http bk name (record r { validator = hv })))

  abbrev set_up :
      String → String → List (ConfigOption HttpRunnerConfig) → HttpRunner → Book → Changed Book
  set_up name root [] r bk = done (place_http bk name r)
  set_up name root (o ∷ opts) r bk =
      or_note name (place_http bk name r) (configure (o ∷ opts) no_http) λ c.
        validated name (new_http_validator w (located w root c)) bk (apply_http_config w root c r)

  -- `HTTPRunner`: the client, which may be nil, is the caller's.
  unfoldable pub http_runner :
      String → String → Option HttpClient → List (ConfigOption HttpRunnerConfig) → BookOption
  unfolding on_book configure new_http_runner apply_http_config located new_http_validator
      generate_operator_root
  http_runner name endpoint client opts = on_book λ bk.
      let b = clear_error name bk in
      with_ok b (generate_operator_root w b) λ root.
        with_ok b (new_http_runner w name endpoint)
          λ r. set_up name root opts (record r { client = client }) b

  abbrev handled : String → List (ConfigOption HttpRunnerConfig) → HttpRunner → Book → Changed Book
  handled name [] r bk = done (place_http bk name r)
  handled name (o ∷ opts) r bk = or_note name bk (configure (o ∷ opts) no_http) λ c.
      if c.not_follow_redirect
      then done (
          note_error name
            (message "runn.HTTPRunnerWithHandler does not support option NotFollowRedirect") bk)
      else placed bk
          (λ r'.
            or_note name bk (new_http_validator w c)
              λ v. done (place_http bk name (record r' { validator = v })))
          (set_timeout w c (set_boundary c r))

  -- `HTTPRunnerWithHandler`
  unfoldable pub http_runner_with_handler :
      String → ℕ → List (ConfigOption HttpRunnerConfig) → BookOption
  unfolding on_book configure new_http_runner_with_handler new_http_validator
  http_runner_with_handler name h opts = on_book λ bk.
      let b = clear_error name bk in
      or_note name b (new_http_runner_with_handler name h) λ r. handled name opts r b

-- `runnHTTPRunner`
unfoldable pub runn_http_runner : String → HttpRunner → BookOption
unfolding on_book
runn_http_runner name r = set_book λ bk. place_http bk name r
