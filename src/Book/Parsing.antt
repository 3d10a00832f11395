-- ===== src/Book/Parsing.antt =====
-- The runners and the variables of a runbook: `parseRunner`, `parseRunners`, `detectSSHRunner` and
-- `parseVars` of book.go.
use runn.Common.{
  String, Bool, true, false, not, Option, none, some, ◌==◌, ◌&&◌, ◌||◌, if◌then◌else◌, insert,
  erase,
}
use runn.Common.Replacing.{trim_prefix}
use package.text.Mathlib.Text.{starts_with}
use runn.Value.{Value, text, dict, Fields, end, field}
use runn.Value.Maps.{put}
use runn.Errors.{Error, message, Result, ok, err}
use runn.Bind
use runn.Bind.{Attempt}
use runn.RunnerConfig.{SshRunnerConfig}
use runn.Book.{Book}
use runn.Book.Changes.{Changed, panics, fails, done, ◌>>=◌, with_ok}
use runn.Book.Loader.{Loader, generate_operator_root}
use runn.Book.Clients.{
  new_http_runner, new_grpc_runner, new_cdp_runner, new_ssh_runner, new_db_runner, place_http,
  place_db, place_grpc, place_cdp, place_ssh,
}
use runn.Book.HttpSettings.{parse_http_runner_with_detailed}
use runn.Book.OtherSettings.{
  parse_grpc_runner_with_detailed, parse_db_runner_with_detailed, parse_ssh_runner_with_detailed,
}

-- `delete(bk.runnerErrs, name)` and `bk.runnerErrs[name] = err`
abbrev pub clear_error : String → Book → Book
clear_error k bk = record bk { runner_errs = erase k bk.runner_errs }

abbrev pub note_error : String → Error → Book → Book
note_error k e bk = record bk { runner_errs = insert k e bk.runner_errs }

-- A parser that leaves the book as it is on an error.
abbrev pub unchanged : {T : Type 0} → T → Attempt T → Changed T
unchanged s Bind.Attempt.panics = panics
unchanged s (Bind.Attempt.fails e) = fails e s
unchanged s (Bind.Attempt.yields t) = done t

-- `if !detect { detect, err = ... }`
abbrev pub or_detect :
    Changed (Bool × Book) → (Book → Changed (Bool × Book)) → Changed (Bool × Book)
or_detect m next = m >>= λ p. if p.0 then done p else next p.1

abbrev pub unless_detected : String → Changed (Bool × Book) → Changed Book
unless_detected tmp panics = panics
unless_detected tmp (fails e p) = fails e p.1
unless_detected tmp (done (true, bk)) = done bk
unless_detected tmp (done (false, bk)) = fails (message "cannot detect runner") bk

-- `if err := bk.parseRunner(k, v); err != nil { bk.runnerErrs[k] = err }`
abbrev pub noted : String → Changed Book → Changed Book
noted k panics = panics
noted k (fails e bk) = done (note_error k e bk)
noted k (done bk) = done bk

module _ (w : Loader) where
  -- By the scheme of the text.
  unfoldable pub parse_text_runner : String → String → Book → Changed Book
  unfolding new_http_runner new_grpc_runner new_cdp_runner new_ssh_runner new_db_runner trim_prefix
  parse_text_runner k vv bk =
      if starts_with vv "https://" || starts_with vv "http://"
      then with_ok bk (new_http_runner w k vv) (λ c. done (place_http bk k c))
      else if starts_with vv "grpc://"
      then with_ok bk (new_grpc_runner k (trim_prefix "grpc://" vv)) (λ c. done (place_grpc bk k c))
      else if starts_with vv "cdp://" || starts_with vv "chrome://"
      then with_ok bk (new_cdp_runner w k (trim_prefix "chrome://" (trim_prefix "cdp://" vv)))
          (λ c. done (place_cdp bk k c))
      else if starts_with vv "ssh://"
      then with_ok bk (new_ssh_runner k (trim_prefix "ssh://" vv)) (λ c. done (place_ssh bk k c))
      else with_ok bk (new_db_runner w k vv) (λ c. done (place_db bk k c))

  -- By the first of the four parsers that detects the map.
  unfoldable pub parse_map_runner : String → String → Book → Changed Book
  unfolding parse_http_runner_with_detailed parse_grpc_runner_with_detailed
      parse_db_runner_with_detailed parse_ssh_runner_with_detailed
  parse_map_runner k tmp bk =
      let grpc = λ (b : Book). unchanged (false, b) (parse_grpc_runner_with_detailed w k tmp b) in
      let db = λ (b : Book). unchanged (false, b) (parse_db_runner_with_detailed w k tmp b) in
      let ssh = λ (b : Book). unchanged (false, b) (parse_ssh_runner_with_detailed w k tmp b) in
      unless_detected tmp
        (or_detect (or_detect (or_detect (parse_http_runner_with_detailed w k tmp bk) grpc) db) ssh)

  -- Any other value is passed over.
  unfoldable pub parse_runner : String → Value → Book → Changed Book
  unfolding parse_text_runner parse_map_runner
  parse_runner k (text vv) bk = parse_text_runner k vv (clear_error k bk)
  parse_runner k (dict vv) bk =
      with_ok (clear_error k bk) (w.marshal vv) λ tmp. parse_map_runner k tmp (clear_error k bk)
  parse_runner k v bk = done (clear_error k bk)

  abbrev is_ssh : Result SshRunnerConfig → Bool
  is_ssh (err e) = false
  is_ssh (ok c) = not (c.host == "" && c.hostname == "")

  unfoldable pub detect_ssh_runner : Value → Bool
  detect_ssh_runner (text vv) = starts_with vv "ssh://"
  detect_ssh_runner (dict vv) = elim (w.marshal vv) [
    | err e ↦ false
    | ok b ↦ is_ssh (w.unmarshal_ssh b)
  ]
  detect_ssh_runner v = false

  -- The runners for which the test is true, in turn.
  unfoldable pub parse_those : (Value → Bool) → Fields → Book → Changed Book
  unfolding parse_runner
  parse_those test end bk = done bk
  parse_those test (field k v m) bk =
      if test v then noted k (parse_runner k v bk) >>= parse_those test m else parse_those test m bk

  abbrev pub expanded :
      Value → Option Fields → (Fields → Changed Book) → Fields → Book → Changed Book
  expanded v none f m bk = f m
  expanded v (some store) f m bk = with_ok bk (w.eval_expand v store) λ r.
      elim r as (λ _. Changed Book) [ dict m' ↦ f m' | _ ↦ fails (message "failed to cast") bk ]

  -- The runners of SSH first, which may forward ports for the others.
  unfoldable pub parse_runners : Option Fields → Book → Changed Book
  unfolding parse_those detect_ssh_runner
  parse_runners store bk =
      expanded (dict bk.runners) store
        (λ m.
          let b : Book = record bk { runners = m } in
          parse_those detect_ssh_runner m b >>= λ b'.
          parse_those (λ v. not (detect_ssh_runner v)) m b')
        bk.runners bk

  unfoldable pub evaluate_vars : Option Fields → Fields → Book → Changed Book
  unfolding generate_operator_root
  evaluate_vars store end bk = done bk
  evaluate_vars store (field k v m) bk = with_ok bk (generate_operator_root w bk) λ root.
      with_ok bk (w.evaluate_schema v root store)
        λ ev. evaluate_vars store m (record bk { vars = put k ev bk.vars })

  unfoldable pub parse_vars : Option Fields → Book → Changed Book
  unfolding evaluate_vars
  parse_vars store bk =
      expanded (dict bk.vars) store (λ m. evaluate_vars store m (record bk { vars = m })) bk.vars bk
