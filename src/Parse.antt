-- ===== src/Parse.antt =====
-- parse.go: from the map of a step to the request of its runner. What other packages do, and the
-- expansion of expressions that the runner hands in, are parameters.
pub mod Delimiter
pub mod Command
pub mod Service
pub mod Http
pub mod Grpc
pub mod Cdp
pub mod Trimmed
pub mod Requests
pub mod Queries
use Prim.Native.String.{◌++◌}
use runn.Common.{String, Bool, true, false, Option, none, some, if◌then◌else◌}
use runn.Common.Int.{ℤ}
use runn.Value.{Value, null, bool, text, dict, Fields, end, field}
use runn.Value.Maps.{get}
use runn.Errors.{Error, message, Result, ok, err}
use runn.Bind
use runn.Bind.{Attempt, panics, fails, yields, attempt}

pub record Reader : Type 0 where
  -- `yaml.Marshal`, for the errors
  pub marshal : Fields → Result String
  -- the argument `expand`
  pub expand : Value → Result Value
  -- `duration.Parse`, in nanoseconds
  pub parse_duration : String → Result ℤ

abbrev pub invalid {ℓ} : {A : Type ℓ} → String → String → Attempt A
invalid what part = fails (message ("invalid " ++ (what ++ (": " ++ part))))

-- A flag such as `trace`: absent, null or a bool.
unfoldable pub flag_of : String → String → Option Value → Attempt (Option Bool)
flag_of what part none = yields none
flag_of what part (some null) = yields none
flag_of what part (some (bool b)) = yields (some b)
flag_of what part (some v) = invalid what part

-- `v.(map[string]any)` with its test.
abbrev pub map_of : String → String → Option Value → Attempt Fields
map_of what part (some (dict m)) = yields m
map_of what part v = invalid what part

abbrev pub text_of : String → String → Option Value → Attempt String
text_of what part (some (text t)) = yields t
text_of what part v = invalid what part

-- `v.(string)` without a test.
abbrev pub must_text : Value → Attempt String
must_text (text t) = yields t
must_text v = panics

-- `len(v) != 1`, and the only key with its value.
abbrev pub one_of : String → String → Fields → Attempt (String × Value)
one_of what part (field k v end) = yields (k, v)
one_of what part m = invalid what part
