-- ===== src/Options/Variables.antt =====
-- `Var` of option.go: a variable of a name, or of a path of names.
use runn.Common.{String, ◌≡◌, ap, ◌∙◌, arith, Option, none, some, List, [], ◌∷◌, eq_refl}
use runn.Value.{Value, dict, Fields, end}
use runn.Value.Maps.{get, put, get-put}
use runn.Errors.{message}
use runn.Book.{Book}
use runn.Book.Changes.{Changed, panics, fails, done, with_ok}
use runn.Book.Loader.{Loader, generate_operator_root}
use runn.Options.{BookOption, on_book}

-- A `string`, a `[]string`, or a value of another type.
pub data VarKey : Type 0 where
  of_name : String → VarKey
  of_path : List String → VarKey
  of_other : VarKey

-- The map at a name: a new one if there is none, or another value.
abbrev pub map_at : String → Fields → Fields
map_at k m = elim (get k m) as (λ _. Fields) [ some (dict n) ↦ n | _ ↦ end ]

-- The maps of the path are written in place.
unfoldable pub put_path : String → List String → Value → Fields → Fields
put_path k [] v m = put k v m
put_path k (j ∷ path) v m = put k (dict (put_path j path v (map_at k m))) m

-- `kk[:len(kk)-1]` panics at a path without names.
unfoldable pub set_var : VarKey → Value → Book → Changed Book
unfolding put_path
set_var (of_name k) v bk = done (record bk { vars = put k v bk.vars })
set_var (of_path []) v bk = panics
set_var (of_path (k ∷ p)) v bk = done (record bk { vars = put_path k p v bk.vars })
set_var of_other v bk = fails (message "invalid key of var") bk

-- `Var`
unfoldable pub var : Loader → VarKey → Value → BookOption
unfolding on_book set_var generate_operator_root
var w k v = on_book λ bk.
    with_ok bk (generate_operator_root w bk)
      λ root. with_ok bk (w.evaluate_schema v root none) λ ev. set_var k ev bk

-- What stands at a path.
unfoldable pub get_path : String → List String → Fields → Option Value
get_path k [] m = get k m
get_path k (j ∷ path) m = get_path j path (map_at k m)

-- After a write at a path, that value stands there, whatever stood on the way.
pub get_path-put_path :
    (k : String) (path : List String) (v : Value) (m : Fields)
    → (get_path k path (put_path k path v m) ≡ some v)
unfolding get_path put_path
get_path-put_path k [] v m = ground (arith, get-put k k v m, eq_refl k)
get_path-put_path k (j ∷ path) v m =
    let n = put_path j path v (map_at k m) in
    let here : get k (put k (dict n) m) ≡ some (dict n) =
      ground (arith, get-put k k (dict n) m, eq_refl k) in
    ap
      (λ (o : Option Value).
        get_path j path (elim o as (λ _. Fields) [ some (dict n) ↦ n | _ ↦ end ]))
      here
    ∙ get_path-put_path j path v (map_at k m)
