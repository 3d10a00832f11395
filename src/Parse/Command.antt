-- ===== src/Parse/Command.antt =====
-- `parseDBQuery`, `parseSSHCommand`, `parseExecCommand` and `parseIncludeConfig` of parse.go.
use runn.Common.{String, Bool, false, ◌&&◌, Option, none, some, ◌==◌, if◌then◌else◌, ltb, ℕ, suc}
use runn.Common.Strings.{trim}
use runn.Value.{Value, bool, text, dict, Fields, end, field}
use runn.Value.Maps.{get}
use runn.Errors.{message}
use runn.Bind.{Attempt, fails, yields, attempt, ◌>>=◌}
use runn.Operator.{IncludeConfig}
use runn.Parse.{Reader, invalid, flag_of, map_of, text_of}
use runn.Parse.Delimiter.{trim_delimiter}

pub record DbQuery : Type 0 where
  pub stmt : String
  pub trace : Option Bool

pub record ExecCommand : Type 0 where
  pub command : String
  pub stdin : String
  pub shell : String

-- `len(v)`
abbrev pub size : Fields → ℕ
size end = 0
size (field k v m) = suc (size m)

-- A text that is not blank, trimmed.
abbrev pub statement : String → String → String → Attempt String
statement what part t = if trim " " t == "" then invalid what part else yields (trim " \n" t)

module _ (r : Reader) where
  unfoldable pub parse_db_query : Fields → Attempt DbQuery
  unfolding flag_of
  parse_db_query (field k v end) = do
    part ← attempt (r.marshal (field k v end))
    t ← text_of "query" part (get "query" (field k v end))
    stmt ← statement "query" part t
    trace ← flag_of "query" part (get "trace" (field k v end))
    yields (record { stmt = stmt; trace = trace })
  parse_db_query v = do part ← attempt (r.marshal v); invalid "query" part

  unfoldable pub parse_ssh_command : Fields → Attempt String
  parse_ssh_command v = do
    part ← attempt (r.marshal v)
    vv ← attempt (r.expand (dict (trim_delimiter v)))
    m ← map_of "command" part (some vv)
    text_of "command" part (get "command" m)

  -- A text that may be absent.
  abbrev text_or_none : String → String → Option Value → Attempt String
  text_or_none what part none = yields ""
  text_or_none what part (some v) = text_of what part (some v)

  -- The test of the number of keys, `len(v) < 1 && len(v) > 3`, never holds.
  unfoldable pub parse_exec_command : Fields → Attempt ExecCommand
  parse_exec_command v = do
    part ← attempt (r.marshal (trim_delimiter v))
    _ ← if ltb (size v) 1 && ltb 3 (size v) then invalid "command" part else yields (tt {0})
    t ← text_of "command" part (get "command" (trim_delimiter v))
    command ← statement "command" part t
    stdin ← text_or_none "stdin" part (get "stdin" (trim_delimiter v))
    shell ← text_or_none "shell" part (get "shell" (trim_delimiter v))
    yields (record { command = command; stdin = stdin; shell = shell })

abbrev refused {ℓ} : {A : Type ℓ} → Attempt A
refused = fails (message "invalid include condig")

abbrev bool_or_false : Option Value → Attempt Bool
bool_or_false none = yields false
bool_or_false (some (bool b)) = yields b
bool_or_false (some v) = refused

abbrev vars_or_none : Option Value → Attempt Fields
vars_or_none none = yields end
vars_or_none (some (dict m)) = yields m
vars_or_none (some v) = refused

abbrev path_text : Option Value → Attempt String
path_text (some (text t)) = yields t
path_text v = refused

unfoldable pub parse_include_config : Value → Attempt IncludeConfig
parse_include_config (text t) =
    yields (record { path = t; vars = end; skip_test = false; force = false })
parse_include_config (dict m) = do
  path ← path_text (get "path" m)
  vars ← vars_or_none (get "vars" m)
  skip ← bool_or_false (get "skipTest" m)
  force ← bool_or_false (get "force" m)
  yields (record { path = path; vars = vars; skip_test = skip; force = force })
parse_include_config v = refused
