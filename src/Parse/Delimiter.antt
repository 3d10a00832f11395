-- ===== src/Parse/Delimiter.antt =====
-- `trimDelimiter` and `trimStringDelimiter` of parse.go.
use Prim.Native.String.{count}
use runn.Common.{ℕ, zero, suc, String, Bool, true, false, ◌&&◌}
use runn.Common.Strings.{has_first, has_last, trim_first, trim_last, drop_escape}
use runn.Value.{Value, text, list, dict, Values, nil, cons, Fields, end, field}

-- The text begins and ends with the quote. A single quote by itself does, too.
unfoldable pub is_quoted : String → String → Bool
is_quoted q s = has_first q s && has_last q s

abbrev pub unquote : String → String → String
unquote q s = trim_last q (trim_first q s)

-- Each round of the loop takes a character away at least: the fuel is the number of characters.
unfoldable pub trim_from : ℕ → String → String
unfolding is_quoted
trim_from zero s = s
trim_from (suc fuel) s = elim (is_quoted "'" s) [
  | true ↦ trim_from fuel (unquote "'" s)
  | false ↦ elim (is_quoted "\"" s) [
    | true ↦ trim_from fuel (drop_escape "\\" "\"" (unquote "\"" s))
    | false ↦ s
  ]
]

unfoldable pub trim_string_delimiter : String → String
unfolding trim_from
trim_string_delimiter s = trim_from (count s) s

abbrev trim_text : Value → Value
trim_text (text t) = text (trim_string_delimiter t)
trim_text v = v

-- Of a list, only the texts are trimmed.
unfoldable pub trim_texts : Values → Values
unfolding trim_string_delimiter
trim_texts nil = nil
trim_texts (cons v l) = cons (trim_text v) (trim_texts l)

unfoldable mutual
  unfolding trim_string_delimiter

  pub trim_delimiter : Fields → Fields
  trim_delimiter end = end
  trim_delimiter (field k v m) = field k (trim_value v) (trim_delimiter m)

  pub trim_value : Value → Value
  trim_value (text t) = text (trim_string_delimiter t)
  trim_value (list l) = list (trim_texts l)
  trim_value (dict m) = dict (trim_delimiter m)
  trim_value v = v
