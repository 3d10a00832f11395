-- ===== src/Book/HttpSettings.antt =====
-- How a client of HTTP takes its settings from a config: in `parseHTTPRunnerWithDetailed` of book.go
-- and in `HTTPRunner` of option.go. The config's paths are relative to the book's.
use runn.Common.{String, Bool, true, false, Option, none, some, ◌==◌, ◌||◌, if◌then◌else◌}
use text.Mathlib.Text.{starts_with}
use runn.Errors.{Error, wrapped, Result, ok, err}
use runn.RunnerConfig.{HttpRunnerConfig}
use runn.Book.{Book, HttpRunner, HttpClient, HttpValidator}
use runn.Book.Changes.{Changed, panics, fails, done, ◌>>=◌, with_ok}
use runn.Book.Loader.{Loader, generate_operator_root, fp, new_http_validator}
use runn.Book.Clients.{new_http_runner, place_http}

-- A write through the client's pointer.
abbrev pub on_client : (HttpClient → HttpClient) → HttpRunner → Changed HttpRunner
on_client f r = elim r.client [
  | none ↦ panics
  | some client ↦ done (record r { client = some (f client) })
]

abbrev pub set_redirect : HttpRunnerConfig → HttpRunner → Changed HttpRunner
set_redirect c r =
    if c.not_follow_redirect
    then on_client (λ client. record client { follows = false }) r
    else done r

abbrev pub with_error : Option Error → Changed HttpRunner → Changed HttpRunner
with_error none m = m
with_error (some e) m = m >>= fails e

-- `r.client.Timeout, err = duration.Parse(c.Timeout)`
abbrev pub set_timeout : Loader → HttpRunnerConfig → HttpRunner → Changed HttpRunner
set_timeout w c r =
    if c.timeout == ""
    then done r
    else (let (d, e) = w.parse_duration c.timeout in
        with_error
          (elim e [
            | none ↦ none
            | some x ↦ some (wrapped "timeout in HttpRunnerConfig is invalid" x)
          ])
          (on_client (λ client. record client { timeout = d }) r))

abbrev pub set_boundary : HttpRunnerConfig → HttpRunner → HttpRunner
set_boundary c r = record r { multipart_boundary = c.multipart_boundary }

module _ (w : Loader) where
  -- `if c.CACert != "" { ... }` and its kin: the file of the path is read.
  abbrev pub read_into :
      String → String → (String → HttpRunner → HttpRunner) → HttpRunner → Changed HttpRunner
  read_into root p set r =
      if p == "" then done r else with_ok r (w.read_file (fp w p root)) λ b. done (set b r)

  -- The location of the document, relative to the root unless it is a URL or absolute.
  unfoldable pub located : String → HttpRunnerConfig → HttpRunnerConfig
  unfolding fp
  located root c =
      let l = c.open_api3_doc_location in
      if l == "" || starts_with l "https://" || starts_with l "http://" || starts_with l "/"
      then c
      else record c { open_api3_doc_location = fp w l root }

  abbrev pub with_ca_cert : String → HttpRunnerConfig → HttpRunner → Changed HttpRunner
  with_ca_cert root c r =
      read_into root c.ca_cert (λ b r'. record r' { ca_cert = b }) (set_boundary c r)

  abbrev pub with_cert : String → HttpRunnerConfig → HttpRunner → Changed HttpRunner
  with_cert root c r = read_into root c.cert (λ b r'. record r' { cert = b }) r

  abbrev pub with_key : String → HttpRunnerConfig → HttpRunner → Changed HttpRunner
  with_key root c r = read_into root c.key (λ b r'. record r' { key = b }) r

  abbrev pub with_timeout : HttpRunnerConfig → HttpRunner → Changed HttpRunner
  with_timeout c r = set_timeout w c (record r { skip_verify = c.skip_verify })

  abbrev pub with_trace : HttpRunnerConfig → HttpRunner → Changed HttpRunner
  with_trace c r = done (record r {
    use_cookie = c.use_cookie;
    trace = c.trace.enable;
    trace_header_name = c.trace.header_name;
  })

  -- From the redirects to the trace, in the order of the source.
  unfoldable pub apply_http_config : String → HttpRunnerConfig → HttpRunner → Changed HttpRunner
  unfolding fp
  apply_http_config root c r =
      set_redirect c r
      >>= with_ca_cert root c
      >>= with_cert root c
      >>= with_key root c
      >>= with_timeout c
      >>= with_trace c

  abbrev pub set_validator : Result HttpValidator → HttpRunner → Changed HttpRunner
  set_validator v r = with_ok r v λ v. done (record r { validator = v })

  -- The book holds the runner while it takes its settings.
  abbrev pub set_up_http :
      Book → String → String → HttpRunnerConfig → HttpRunner → Changed (Bool × Book)
  set_up_http bk root name c r =
      let settings =
        apply_http_config root c r >>= set_validator (new_http_validator w (located root c)) in
      elim settings [
        | panics ↦ panics
        | fails e r' ↦ fails e (false, place_http bk name r')
        | done r' ↦ done (true, place_http bk name r')
      ]

  -- Whether the map is one of an HTTP runner.
  unfoldable pub parse_http_runner_with_detailed : String → String → Book → Changed (Bool × Book)
  unfolding new_http_runner apply_http_config located new_http_validator generate_operator_root
  parse_http_runner_with_detailed name b bk = elim (w.unmarshal_http b) [
    | err e ↦ done (false, bk)
    | ok c ↦
        if c.endpoint == ""
        then done (false, bk)
        else with_ok (false, bk) (generate_operator_root w bk)
            λ root.
              with_ok (false, bk) (new_http_runner w name c.endpoint)
                λ r. set_up_http bk root name c r
  ]
