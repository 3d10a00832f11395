-- ===== src/Options/Applying.antt =====
-- `applyOptions` of book.go: each option is first called with nil, so that the scopes are set, and
-- then with the book, after the built-in functions.
use mathlib.Core.List.{◌++◌}
use runn.Common.{ℕ, suc, String, Option, none, some, List, [], ◌∷◌}
use runn.Value.{func}
use runn.Book.{Book}
use runn.Book.Changes.{Changed, panics, fails, done, ◌>>=◌}
use runn.Scopes.{Scopes}
use runn.Options.{Target, BookOption}
use runn.Options.Settings.{set_func}

-- The names of `setupBuiltinFunctions`; a function stands by its number.
abbrev pub builtin_names : List String
builtin_names =
    "url" ∷ "urlencode" ∷ "base64encode" ∷ "base64decode" ∷ "bool" ∷ "time" ∷ "compare" ∷ "diff"
    ∷ "intersect" ∷ "pick" ∷ "omit" ∷ "merge" ∷ "input" ∷ "secret" ∷ "select" ∷ "basename" ∷ "faker"
    ∷ "json" ∷ []

unfoldable pub func_options : ℕ → List String → List BookOption
unfolding set_func
func_options n [] = []
func_options n (k ∷ names) = set_func k (func n) ∷ func_options (suc n) names

unfoldable pub setup_builtin_functions : List BookOption → List BookOption
unfolding func_options
setup_builtin_functions opts = func_options 0 builtin_names ++ opts

abbrev pub no_book : Scopes → Target
no_book g = record { book = none; scopes = g }

abbrev pub for_book : Book → Scopes → Target
for_book bk g = record { book = some bk; scopes = g }

-- `for _, opt := range opts { _ = opt(nil) }`: the scopes that are left, and none for a panic.
unfoldable pub call_with_nil : List BookOption → Scopes → Option Scopes
call_with_nil [] g = some g
call_with_nil (opt ∷ opts) g = elim (opt (no_book g)) [
  | panics ↦ none
  | fails e t ↦ call_with_nil opts t.scopes
  | done t ↦ call_with_nil opts t.scopes
]

unfoldable pub apply_each : List BookOption → Target → Changed Target
apply_each [] t = done t
apply_each (opt ∷ opts) t = opt t >>= apply_each opts

unfoldable pub apply_options : List BookOption → Book → Scopes → Changed Target
unfolding call_with_nil apply_each setup_builtin_functions
apply_options opts bk g = elim (call_with_nil opts g) [
  | none ↦ panics
  | some g' ↦ apply_each (setup_builtin_functions opts) (for_book bk g')
]
