-- ===== src/RunbookFile/Appending.antt =====
-- `AppendStep` of runbook.go: a step from a command or from a line of an access log. Its parsers are
-- other packages', and `CreateHTTPStepMapSlice` of yaml.go makes the step of a request.
use Prim.Native.String.{◌++◌}
use mathlib.Core.List.{◌++◌ as append}
use runn.Common.{
  ℕ, String, Option, none, some, List, [], ◌∷◌, ◌==◌, ◌||◌, not, eqb, length, if◌then◌else◌, Dict,
}
use runn.Common.Text.{decimal, join}
use runn.Common.Replacing.{has_text}
use package.text.Mathlib.Text.{starts_with}
use runn.Errors.{message, Result}
use runn.Book.Changes.{Changed, panics, fails, done, with_ok}
use runn.RunbookFile.{
  Yaml, Yamls, Items, NamedItems, RunbookFile, text, list, string_map, yaml_slice, nil, cons, end,
  item, stop, named,
}
use runn.RunbookFile.RunnerKeys.{set_runner}

-- The URL, the host and the number of a request.
pub record HttpCall : Type 0 where
  pub url : String
  pub host : String
  pub request : ℕ

pub record GrpcCall : Type 0 where
  pub addr : String
  pub method : String
  pub sub_cmd : String
  pub headers : Dict (List String)
  pub messages : List Yaml

pub record CommandReader : Type 0 where
  pub parse_curl : List String → Result HttpCall
  pub parse_grpcurl : List String → Result GrpcCall
  -- `GuessParser` of a line, and the request of it
  pub guess_log : String → Result ℕ
  pub log_request : ℕ → Result ℕ
  pub create_http_step : String → ℕ → Result Items
  -- `%#v` of a text
  pub quote : String → String

abbrev pub append_item : Items → RunbookFile → RunbookFile
append_item step rb = record rb { steps = append rb.steps (step ∷ []) }

-- `strings.Split(url, host)[0]`: what stands before the host; a first character if it is empty.
unfoldable pub before_text : String → String → String
before_text host String.[] = ""
before_text host (String.◌∷◌ c s) =
    let later = String.◌∷◌ c (before_text host s) in
    if host == ""
    then String.◌∷◌ c String.[]
    else if starts_with (String.◌∷◌ c s) host
    then ""
    else later

-- `map[string]string` with the first of each header's values.
abbrev pub first_of : List String → Option String
first_of [] = none
first_of (v ∷ l) = some v

unfoldable pub first_headers : Dict (List String) → Option NamedItems
first_headers [] = some stop
first_headers ((k, v) ∷ m) = elim (first_of v) [
  | none ↦ none
  | some t ↦ elim (first_headers m) [ none ↦ none | some h ↦ some (named k (text t) h) ]
]

unfoldable pub list_of : List Yaml → Yamls
list_of [] = nil
list_of (v ∷ l) = cons v (list_of l)

abbrev messages_of : List Yaml → Items
messages_of [] = end
messages_of (v ∷ []) = item (text "message") v end
messages_of (v ∷ w ∷ l) = item (text "messages") (list (list_of (v ∷ w ∷ l))) end

abbrev headers_and : NamedItems → Items → Items
headers_and stop hm = hm
headers_and (named k v m) hm = item (text "headers") (string_map (named k v m)) hm

-- Without headers and messages the request is a nil slice.
abbrev pub grpc_step : String → String → NamedItems → List Yaml → Items
grpc_step key method h messages =
    item (text key)
      (yaml_slice (item (text method) (yaml_slice (headers_and h (messages_of messages))) end)) end

-- Each argument without the line break at its end; one with blanks is quoted.
unfoldable pub trim_line : String → String
trim_line String.[] = ""
trim_line (String.◌∷◌ c s) =
    let rest = trim_line s in if String.◌∷◌ c s == "\n" then "" else String.◌∷◌ c rest

-- `key := rb.setRunner(dsn)`, and what follows.
abbrev pub with_runner :
    String → RunbookFile → (String → RunbookFile → Changed RunbookFile) → Changed RunbookFile
with_runner dsn rb next = elim (set_runner dsn rb) [
  | none ↦ panics
  | some (key, rb') ↦ next key rb'
]

module _ (r : CommandReader) where
  -- `curlToStep`
  unfoldable pub curl_to_step : List String → RunbookFile → Changed RunbookFile
  unfolding set_runner before_text
  curl_to_step args rb = with_ok rb (r.parse_curl args) λ call.
      with_runner (before_text call.host call.url ++ call.host) rb λ key rb'.
        with_ok rb' (r.create_http_step key call.request) λ step. done (append_item step rb')

  abbrev pub grpc_headers : String → GrpcCall → RunbookFile → Changed RunbookFile
  grpc_headers key p rb = elim (first_headers p.headers) [
    | none ↦ panics
    | some h ↦ done (append_item (grpc_step key p.method h p.messages) rb)
  ]

  -- `grpcurlToStep`
  unfoldable pub grpcurl_to_step : List String → RunbookFile → Changed RunbookFile
  unfolding set_runner first_headers list_of
  grpcurl_to_step args rb = with_ok rb (r.parse_grpcurl args) λ p.
      if p.addr == "" || p.method == "" || not (p.sub_cmd == "")
      then fails (message "unsupported grpcurl command") rb
      else with_runner ("grpc://" ++ p.addr) rb λ key rb'. grpc_headers key p rb'

  -- `axsLogToStep`
  unfoldable pub axs_log_to_step : List String → RunbookFile → Changed RunbookFile
  unfolding set_runner join
  axs_log_to_step args rb = with_ok rb (r.guess_log (join " " args)) λ l.
      with_runner "https://dummy.example.com" rb λ key rb'.
        with_ok rb' (r.log_request l) λ request.
          with_ok rb' (r.create_http_step key request) λ step. done (append_item step rb')

  abbrev quoted : String → String
  quoted i = if has_text " " i then r.quote i else i

  unfoldable pub quoted_all : List String → List String
  unfolding has_text trim_line
  quoted_all [] = []
  quoted_all (i ∷ args) = quoted (trim_line i) ∷ quoted_all args

  unfoldable pub join_commands : List String → String
  unfolding quoted_all join
  join_commands args = join " " (quoted_all args) ++ "\n"

  -- `cmdToStep`
  unfoldable pub cmd_to_step : List String → RunbookFile → Changed RunbookFile
  unfolding join_commands
  cmd_to_step args rb = done (
      append_item
        (item (text "exec") (yaml_slice (item (text "command") (text (join_commands args)) end))
          end)
        rb)

  -- A line that is no log is a command, with the runner that the attempt may have set.
  abbrev pub or_cmd : List String → Changed RunbookFile → Changed RunbookFile
  or_cmd args panics = panics
  or_cmd args (fails e rb) = cmd_to_step args rb
  or_cmd args (done rb) = done rb

  abbrev pub to_step : String → List String → RunbookFile → Changed RunbookFile
  to_step first rest rb =
      if starts_with first "curl"
      then curl_to_step (first ∷ rest) rb
      else if starts_with first "grpcurl"
      then grpcurl_to_step (first ∷ rest) rb
      else if eqb (length rest) 0
      then or_cmd (first ∷ rest) (axs_log_to_step (first ∷ rest) rb)
      else cmd_to_step (first ∷ rest) rb

  abbrev pub with_key : String → RunbookFile → RunbookFile
  with_key first rb =
      let key = first ++ decimal (length rb.step_keys) in
      if rb.use_map then record rb { step_keys = append rb.step_keys (key ∷ []) } else rb

  -- `AppendStep`
  unfoldable pub append_step : List String → RunbookFile → Changed RunbookFile
  unfolding curl_to_step grpcurl_to_step axs_log_to_step cmd_to_step decimal
  append_step [] rb = fails (message "no argument") rb
  append_step (first ∷ rest) rb = to_step first rest (with_key first rb)
