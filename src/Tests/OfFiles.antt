-- ===== src/Tests/OfFiles.antt =====
-- A runbook with two steps under keys, as it stands in a file, and the commands that are appended to it.
use runn.Common.{length, suc, ◌≡◌, refl, true, none, [], ◌∷◌}
use runn.Common.Int.{pos, negsuc}
use runn.Errors.{message, ok, err}
use runn.Book.Changes.{panics, fails, done}
use runn.RunbookFile
use runn.RunbookFile.{Yaml, Items, RunbookFile, RunbookMapped, new_runbook}
use runn.RunbookFile.Normal.{IsNormal, normalize, normalize-IsNormal}
use runn.RunbookFile.Mapped.{marshal_yaml, parse_runbook_mapped, as_mapped, mapped_of, steps_of}
use runn.RunbookFile.Reading.{marshal_yaml-parse_runbook_mapped}
use runn.RunbookFile.Broken.{append_step-fails}
use runn.RunbookFile.NilRunners.{by_curl, append_step-panics}
use runn.Store.View.{Distinct}
use runn.Common.Text.{decimal, join}
use runn.Common.Replacing.{has_text}
use runn.RunbookFile.Appending
use runn.RunbookFile.Appending.{
  CommandReader, curl_to_step, axs_log_to_step, cmd_to_step, join_commands, quoted_all, trim_line,
}
use runn.RunbookFile.Growing.{append_step-marshal_yaml}

abbrev step_one : Items
step_one =
    RunbookFile.Items.item (RunbookFile.Yaml.text "test") (RunbookFile.Yaml.text "true")
      RunbookFile.Items.end

abbrev mapped_runbook : RunbookFile
mapped_runbook = record (new_runbook "two steps") {
  use_map = true;
  step_keys = "one" ∷ "two" ∷ [];
  steps = step_one ∷ step_one ∷ [];
  loop = RunbookFile.Yaml.int (pos 3);
}

-- As it stands in a file without `runners:`.
abbrev mapped_file : RunbookMapped
mapped_file = record (mapped_of mapped_runbook) {
  runners = none;
  loop = RunbookFile.Yaml.int (pos 3);
}

abbrev read_runbook : RunbookFile
read_runbook = record mapped_runbook { runners = none; loop = RunbookFile.Yaml.null }

file_read : parse_runbook_mapped mapped_file (new_runbook "") ≡ done read_runbook
unfolding parse_runbook_mapped new_runbook steps_of
file_read = refl

marshal_yaml-parse_runbook_mapped_example :
    Distinct read_runbook.step_keys
    × (length read_runbook.step_keys ≡ length read_runbook.steps)
    × (marshal_yaml read_runbook
        ≡ ok (
            as_mapped (record mapped_file {
              loop = RunbookFile.Yaml.null;
              concurrency = RunbookFile.Yaml.null;
            })))
unfolding new_runbook
marshal_yaml-parse_runbook_mapped_example =
    marshal_yaml-parse_runbook_mapped mapped_file (new_runbook "") read_runbook refl refl file_read

abbrev nested : Yaml
nested = RunbookFile.Yaml.any_map (
    RunbookFile.Items.item (RunbookFile.Yaml.bool true)
      (RunbookFile.Yaml.list (
        RunbookFile.Yamls.cons (RunbookFile.Yaml.int (pos 1))
          (RunbookFile.Yamls.cons (RunbookFile.Yaml.int (negsuc 0)) RunbookFile.Yamls.nil)))
      RunbookFile.Items.end)

normalize-IsNormal_example : IsNormal (normalize (λ k. "") nested)
normalize-IsNormal_example = normalize-IsNormal (λ k. "") nested

abbrev commands : CommandReader
commands = record {
  parse_curl = λ args. err (message "no curl");
  parse_grpcurl = λ args. err (message "no grpcurl");
  guess_log = λ line. err (message "no log");
  log_request = λ l. ok l;
  create_http_step = λ key q. ok step_one;
  quote = λ t. t;
}

abbrev echo_step : Items
echo_step =
    RunbookFile.Items.item (RunbookFile.Yaml.text "exec")
      (RunbookFile.Yaml.yaml_slice (
        RunbookFile.Items.item (RunbookFile.Yaml.text "command") (RunbookFile.Yaml.text "echo\n")
          RunbookFile.Items.end))
      RunbookFile.Items.end

abbrev grown_runbook : RunbookFile
grown_runbook = record mapped_runbook {
  step_keys = "one" ∷ "two" ∷ "echo2" ∷ [];
  steps = step_one ∷ step_one ∷ echo_step ∷ [];
}

append_step_returns :
    Appending.append_step commands ("echo" ∷ []) mapped_runbook ≡ done grown_runbook
unfolding Appending.append_step axs_log_to_step cmd_to_step join_commands quoted_all trim_line
    has_text join decimal new_runbook
append_step_returns = refl

append_step-marshal_yaml_example :
    (3 ≡ suc 2) × (m : RunbookMapped) × (marshal_yaml grown_runbook ≡ ok (as_mapped m))
unfolding new_runbook
append_step-marshal_yaml_example =
    append_step-marshal_yaml commands ("echo" ∷ []) mapped_runbook grown_runbook refl refl
      append_step_returns

abbrev curl_commands : CommandReader
curl_commands = record commands {
  parse_curl =
      λ args. ok (record { url = "https://example.com/a"; host = "example.com"; request = 1 });
}

append_step-panics_example :
    Appending.append_step curl_commands ("curl" ∷ "https://example.com/a" ∷ []) read_runbook
    ≡ panics
append_step-panics_example =
    append_step-panics curl_commands mapped_file (new_runbook "") read_runbook "curl"
      ("https://example.com/a" ∷ []) refl file_read (by_curl _ refl refl)

-- The curl command is not read, and leaves its key behind.
abbrev broken_runbook : RunbookFile
broken_runbook = record mapped_runbook { step_keys = "one" ∷ "two" ∷ "curl2" ∷ [] }

curl_fails :
    Appending.append_step commands ("curl" ∷ []) mapped_runbook
    ≡ fails (message "no curl") broken_runbook
unfolding Appending.append_step curl_to_step decimal new_runbook
curl_fails = refl

append_step-fails_example :
    (broken_runbook.steps ≡ mapped_runbook.steps)
    × (marshal_yaml broken_runbook ≡ err (message "invalid runbook"))
unfolding new_runbook
append_step-fails_example =
    append_step-fails commands "curl" [] mapped_runbook broken_runbook (message "no curl") refl refl
      curl_fails
