-- ===== src/Store/Root.antt =====
-- `toMap` and `toNormalizedMap` of store.go: the root that expressions read. `env` stands for what
-- `envMap` reads of the process.
use runn.Common.{
  ℕ, String, ◌≡◌, Bool, true, Option, none, some, [], ◌∷◌, arith, ◌==◌, ◌||◌, if◌then◌else◌, Dict,
}
use mathlib.Core.Option
use runn.Common.Int.{pos}
use runn.Value.{Value, int, text, cookie, list, dict, Fields, end, field, Cookie}
use runn.Value.Maps.{get, put, put_all, get-put, get-put_all, list_of, dict_of, or_else}
use runn.Store.{Store}

unfoldable pub cookies_of_domain : Dict Cookie → Fields
cookies_of_domain [] = end
cookies_of_domain ((k, c) ∷ m) = field k (cookie c) (cookies_of_domain m)

unfoldable pub cookies_value : Dict (Dict Cookie) → Fields
cookies_value [] = end
cookies_value ((k, m) ∷ l) = field k (dict (cookies_of_domain m)) (cookies_value l)

unfoldable pub steps_value : Store → Value
steps_value s = if s.use_map then dict (dict_of s.step_map) else list (list_of s.steps)

-- `for k := range s.funcs { store[k] = storeFuncValue }`
unfoldable func_names : Fields → Fields → Fields
func_names end dst = dst
func_names (field k v src) dst = put k (text "[func]") (func_names src dst)

abbrev put_parent : Option Fields → Fields → Fields
put_parent none m = m
put_parent (some p) m = put "parent" (dict p) m

abbrev put_index : Option ℕ → Fields → Fields
put_index none m = m
put_index (some i) m = put "i" (int (pos i)) m

abbrev put_cookies : Option (Dict (Dict Cookie)) → Fields → Fields
put_cookies none m = m
put_cookies (some c) m = put "cookies" (dict (cookies_value c)) m

-- The statements of `toMap`, the first innermost.
unfoldable pub to_map : Fields → Store → Fields
unfolding func_names
to_map env s =
    let roots = put_all s.funcs (put "env" (dict env) end) in
    let steps = put "steps" (steps_value s) (put "vars" (dict s.vars) roots) in
    let bound = put_all s.bind_vars (put_parent s.parent_vars steps) in
    put_cookies s.cookies (put_index s.loop_index bound)

-- Function values become a text, and the parent is left out.
unfoldable pub to_normalized_map : Fields → Store → Fields
unfolding func_names
to_normalized_map env s =
    let roots = func_names s.funcs (put "env" (dict env) end) in
    let steps = put "steps" (steps_value s) (put "vars" (dict s.vars) roots) in
    put_cookies s.cookies (put_index s.loop_index (put_all s.bind_vars steps))

unfoldable pub is_reserved : String → Bool
is_reserved k =
    k == "vars"
    || k == "steps"
    || k == "parent"
    || k == "included"
    || k == "current"
    || k == "previous"
    || k == "env"
    || k == "cookies"
    || k == "i"

-- No variable that a runbook has bound hides a reserved root.
abbrev pub BindsNoReserved : Fields → Type 0
BindsNoReserved m = (k : String) → is_reserved k ≡ true → get k m ≡ none

module _ (k : String) (m : Fields) where
  get-put_parent :
      (p : Option Fields)
      → get k (put_parent p m)
        ≡ (if "parent" == k then or_else (Option.map (λ f. dict f) p) (get k m) else get k m)
  get-put_parent none = ground arith
  get-put_parent (some p) = get-put "parent" k (dict p) m

  get-put_index :
      (i : Option ℕ)
      → get k (put_index i m)
        ≡ (if "i" == k then or_else (Option.map (λ n. int (pos n)) i) (get k m) else get k m)
  get-put_index none = ground arith
  get-put_index (some i) = get-put "i" k (int (pos i)) m

  get-put_cookies :
      (c : Option (Dict (Dict Cookie)))
      → get k (put_cookies c m) ≡ (
          if "cookies" == k
          then or_else (Option.map (λ d. dict (cookies_value d)) c) (get k m)
          else get k m)
  get-put_cookies none = ground arith
  get-put_cookies (some c) = get-put "cookies" k (dict (cookies_value c)) m

ruleset root_laws = (get-put_parent, get-put_index, get-put_cookies, get-put, get-put_all)
