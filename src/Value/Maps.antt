-- ===== src/Value/Maps.antt =====
-- Reading and writing `map[string]any`, `map[any]any` and `[]any`.
use runn.Common.{
  String, ◌≡◌, refl, Bool, true, false, Option, none, some, List, [], ◌∷◌, arith, ◌==◌, eq_iff, eqb,
  if◌then◌else◌, Dict,
}
use runn.Common.Int.{ℤ, pos, negsuc}
use runn.Value.{
  Key, text_key, int_key, uint_key, float_key, bool_key, Value, dict, Values, nil, cons, Fields,
  end, field, Entries, stop, entry,
}

-- `m[k]`
unfoldable pub get : String → Fields → Option Value
get k end = none
get k (field j v m) = if j == k then some v else get k m

-- `m[k] = v`
unfoldable pub put : String → Value → Fields → Fields
put k v end = field k v end
put k v (field j w m) = if j == k then field k v m else field j w (put k v m)

-- `for k, v := range src { dst[k] = v }`
unfoldable pub put_all : Fields → Fields → Fields
put_all end dst = dst
put_all (field k v src) dst = put k v (put_all src dst)

abbrev pub or_else {ℓ} : {A : Type ℓ} → Option A → Option A → Option A
or_else none d = d
or_else (some a) d = some a

pub get-put :
    (k j : String) (v : Value) (m : Fields)
    → get j (put k v m) ≡ (if k == j then some v else get j m)
unfolding get put
get-put k j v end = refl
get-put k j v (field i w m) =
    let rest = get-put k j v m in ground (arith, rest, eq_iff i j, eq_iff k j, eq_iff i k)

pub get-put_all :
    (k : String) (src dst : Fields) → get k (put_all src dst) ≡ or_else (get k src) (get k dst)
unfolding put_all get
get-put_all k end dst = refl
get-put_all k (field j v src) dst =
    ground (arith, get-put j k v (put_all src dst), get-put_all k src dst)

pub ruleset field_laws = (get-put, get-put_all)

-- `[]any(l)` of a list of maps.
unfoldable pub list_of : List Fields → Values
list_of [] = nil
list_of (m ∷ l) = cons (dict m) (list_of l)

-- `map[string]map[string]any` as a value.
unfoldable pub dict_of : Dict Fields → Fields
dict_of [] = end
dict_of ((k, m) ∷ l) = field k (dict m) (dict_of l)

-- `append(xs, ys...)`
unfoldable pub append : Values → Values → Values
append nil ys = ys
append (cons x xs) ys = cons x (append xs ys)

abbrev int_eq : ℤ → ℤ → Bool
int_eq (pos a) (pos b) = eqb a b
int_eq (negsuc a) (negsuc b) = eqb a b
int_eq _ _ = false

abbrev bool_eq : Bool → Bool → Bool
bool_eq true b = b
bool_eq false true = false
bool_eq false false = true

-- Equality of two interface values: the dynamic types agree, and so do the values.
unfoldable pub key_eq : Key → Key → Bool
key_eq (text_key a) (text_key b) = a == b
key_eq (int_key a) (int_key b) = int_eq a b
key_eq (uint_key a) (uint_key b) = eqb a b
key_eq (float_key a) (float_key b) = eqb a b
key_eq (bool_key a) (bool_key b) = bool_eq a b
key_eq _ _ = false

-- `m[k]` and `m[k] = v` of a `map[any]any`.
unfoldable pub get_entry : Key → Entries → Option Value
get_entry k stop = none
get_entry k (entry j v m) = if key_eq j k then some v else get_entry k m

unfoldable pub put_entry : Key → Value → Entries → Entries
put_entry k v stop = entry k v stop
put_entry k v (entry j w m) = if key_eq j k then entry j v m else entry j w (put_entry k v m)
