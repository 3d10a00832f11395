-- ===== src/Options/Settings.antt =====
-- The options of option.go that set a field of the book.
use Prim.Native.String.{◌++◌}
use mathlib.Core.List.{◌++◌ as append}
use runn.Common.{ℕ, String, Bool, true, some, List, [], ◌∷◌, ◌||◌}
use runn.Common.Int.{ℤ, pos, negsuc}
use runn.Common.Strings.{split}
use runn.Value.{Value}
use runn.Value.Maps.{put}
use runn.Errors.{message}
use runn.Book.{Book, always, if_true}
use runn.Book.Changes.{Changed, fails, done, ◌>>=◌, within}
use runn.Scopes.{set_scopes, trim_space}
use runn.Options.{BookOption, on_book, set_book}

unfoldable pub desc : String → BookOption
unfolding on_book
desc d = set_book λ bk. record bk { desc = d }

-- `T`
unfoldable pub test_helper : ℕ → BookOption
unfolding on_book
test_helper t = set_book λ bk. record bk { t = some t }

-- `Func`
unfoldable pub set_func : String → Value → BookOption
unfolding on_book
set_func k v = set_book λ bk. record bk { funcs = put k v bk.funcs }

-- A flag that is set stays set.
unfoldable pub debug : Bool → BookOption
unfolding on_book
debug b = set_book λ bk. record bk { debug = bk.debug || b }

unfoldable pub profile : Bool → BookOption
unfolding on_book
profile b = set_book λ bk. record bk { profile = bk.profile || b }

unfoldable pub skip_test : Bool → BookOption
unfolding on_book
skip_test b = set_book λ bk. record bk { skip_test = bk.skip_test || b }

unfoldable pub force : Bool → BookOption
unfolding on_book
force b = set_book λ bk. record bk { force = bk.force || b }

unfoldable pub trace : Bool → BookOption
unfolding on_book
trace b = set_book λ bk. record bk { trace = bk.trace || b }

-- A duration in nanoseconds.
unfoldable pub interval : ℤ → BookOption
unfolding on_book
interval (negsuc n) = on_book λ bk. fails (message "invalid interval") bk
interval (pos n) = on_book λ bk. done (record bk { interval = pos n })

unfoldable pub fail_fast : Bool → BookOption
unfolding on_book
fail_fast b = set_book λ bk. record bk { fail_fast = b }

unfoldable pub skip_included : Bool → BookOption
unfolding on_book
skip_included b = set_book λ bk. record bk { skip_included = b }

unfoldable pub http_open_api3 : String → BookOption
unfolding on_book
http_open_api3 l = set_book λ bk. record bk { open_api3_doc_locations = l ∷ [] }

unfoldable pub http_open_api3s : List String → BookOption
unfolding on_book
http_open_api3s locations = set_book λ bk. record bk { open_api3_doc_locations = locations }

unfoldable pub grpc_no_tls : Bool → BookOption
unfolding on_book
grpc_no_tls b = set_book λ bk. record bk { grpc_no_tls = b }

unfoldable pub grpc_protos : List String → BookOption
unfolding on_book
grpc_protos protos = set_book λ bk. record bk { grpc_protos = protos }

unfoldable pub grpc_import_paths : List String → BookOption
unfolding on_book
grpc_import_paths paths = set_book λ bk. record bk { grpc_import_paths = paths }

unfoldable pub before_func : ℕ → BookOption
unfolding on_book
before_func fn = set_book λ bk. record bk { before_funcs = append bk.before_funcs (always fn ∷ []) }

unfoldable pub after_func : ℕ → BookOption
unfolding on_book
after_func fn = set_book λ bk. record bk { after_funcs = append bk.after_funcs (always fn ∷ []) }

unfoldable pub after_func_if : ℕ → String → BookOption
unfolding on_book
after_func_if fn cond =
    set_book λ bk. record bk { after_funcs = append bk.after_funcs (if_true cond fn ∷ []) }

unfoldable pub capture : ℕ → BookOption
unfolding on_book
capture c = set_book λ bk. record bk { capturers = append bk.capturers (c ∷ []) }

unfoldable pub set_stdout : ℕ → BookOption
unfolding on_book
set_stdout w = set_book λ bk. record bk { stdout = w }

unfoldable pub set_stderr : ℕ → BookOption
unfolding on_book
set_stderr w = set_book λ bk. record bk { stderr = w }

unfoldable pub load_only : BookOption
unfolding on_book
load_only = set_book λ bk. record bk { load_only = true }

unfoldable pub included : Bool → BookOption
unfolding on_book
included b = set_book λ bk. record bk { included = b }

-- `Scopes`: without the test for nil, since the scopes are global.
unfoldable pub scopes : List String → BookOption
unfolding set_scopes
scopes names t = within (λ g. record t { scopes = g }) (set_scopes names t.scopes)

abbrev add_rule : String → List String → Book → Changed Book
add_rule rule (host ∷ to ∷ []) bk =
    done (record bk { host_rules = append bk.host_rules (record { host = host; rule = to } ∷ []) })
add_rule rule parts bk = fails (message ("invalid host rule: " ++ rule)) bk

unfoldable pub add_rules : String → List String → Book → Changed Book
unfolding split
add_rules rule [] bk = done bk
add_rules rule (ss ∷ more) bk = add_rule rule (split " " (trim_space ss)) bk >>= add_rules rule more

unfoldable pub set_host_rules : List String → Book → Changed Book
unfolding add_rules split
set_host_rules [] bk = done bk
set_host_rules (rule ∷ rules) bk = add_rules rule (split "," rule) bk >>= set_host_rules rules

unfoldable pub host_rules : List String → BookOption
unfolding on_book set_host_rules
host_rules rules = on_book (set_host_rules rules)
