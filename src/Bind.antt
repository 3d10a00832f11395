-- ===== src/Bind.antt =====
-- bind.go: the variables that `bind:` writes. A Go panic is `panics`.
pub mod Merge
pub mod Sorted
pub mod Fuel
pub mod Reserved
use Prim.Native.String
use Prim.Native.String.{count}
use runn.Common.{
  ℕ, zero, suc, String, Bool, true, false, Option, none, some, List, [], ◌∷◌, ◌==◌, ◌||◌,
  if◌then◌else◌,
}
use runn.Common.Int.{ℤ}
use runn.Errors.{Error, message, Result, ok, err}
use runn.Value.{
  Value, null, bool, int, uint, float, text, list, dict, any_dict, Values, nil, cons, Fields, end,
  field, Entries, stop, entry, Key, text_key, int_key, uint_key, float_key, bool_key,
}
use runn.Value.Maps.{get}
use runn.Store.Root.{is_reserved}
use runn.Eval.{Lang, eval, eval_any}
use runn.Bind.Merge.{merge_vars}
use runn.Bind.Sorted.{sorted_keys}

-- The nodes of the expression parser that a key can be; any other is `other_node`.
pub data Node : Type 0 where
  identifier : String → Node
  member : Node → Node → Node
  string_node : String → Node
  integer_node : ℤ → Node
  other_node : String → Node

-- `parser.Parse(k)` and the `String` method of a member node.
pub record NodeParser : Type 0 where
  pub parse : String → Result Node
  pub show_node : Node → String

pub data Attempt {ℓ} (A : Type ℓ) : Type ℓ where
  panics : Attempt A
  fails : Error → Attempt A
  yields : A → Attempt A

infixl 5 ◌>>=◌
abbrev pub ◌>>=◌ {ℓ κ} : {A : Type ℓ} {B : Type κ} → Attempt A → (A → Attempt B) → Attempt B
panics >>= f = panics
fails e >>= f = fails e
yields a >>= f = f a

abbrev pub attempt {ℓ} : {A : Type ℓ} → Result A → Attempt A
attempt (ok a) = yields a
attempt (err e) = fails e

-- `map[any]any{kk: v}` panics at a key that cannot be compared, and `nil` is refused before.
-- (A pointer to a cookie could be a key, and is not modelled as one.)
unfoldable pub key_of_value : Value → Attempt Key
key_of_value null = fails (message "invalid value")
key_of_value (text t) = yields (text_key t)
key_of_value (int n) = yields (int_key n)
key_of_value (uint n) = yields (uint_key n)
key_of_value (float n) = yields (float_key n)
key_of_value (bool b) = yields (bool_key b)
key_of_value _ = panics

abbrev pub or_null : Option Value → Value
or_null none = null
or_null (some v) = v

-- `strings.HasSuffix` and `strings.TrimSuffix` with "[]".
abbrev pub has_suffix : String → Bool
has_suffix String.[] = false
has_suffix (String.◌∷◌ c s) = String.◌∷◌ c s == "[]" || has_suffix s

abbrev pub trim_suffix : String → String
trim_suffix String.[] = ""
trim_suffix (String.◌∷◌ c s) = if String.◌∷◌ c s == "[]" then "" else String.◌∷◌ c (trim_suffix s)

module _ (l : Lang) (p : NodeParser) where
  -- The switch on `nn.Property`, which stands twice in the source.
  unfoldable pub property_key : Fields → Node → Attempt Key
  unfolding key_of_value
  property_key store (identifier e) = attempt (eval l e store) >>= key_of_value
  property_key store (string_node t) = yields (text_key t)
  property_key store (integer_node n) = yields (int_key n)
  property_key store (member n m) =
      attempt (eval l (p.show_node (member n m)) store) >>= key_of_value
  property_key store (other_node t) = fails (message "invalid node type")

  unfoldable pub node_to_map : Fields → Node → Value → Attempt Fields
  unfolding property_key
  node_to_map store (identifier k) v =
      if is_reserved k then fails (message "reserved") else yields (field k v end)
  node_to_map store (member (identifier k) property) v =
      if is_reserved k
      then fails (message "reserved")
      else do kk ← property_key store property; yields (field k (any_dict (entry kk v stop)) end)
  node_to_map store (member (member n m) property) v =
      let inner = λ (kk : Key). node_to_map store (member n m) (any_dict (entry kk v stop)) in
      property_key store property >>= inner
  -- No case of the inner switch: the map stays empty.
  node_to_map store (member n property) v = yields end
  node_to_map store n v = fails (message "invalid node type")

  -- One round of fuel for each "[]" at the end of the key, and one for what is before.
  unfoldable pub bind_from : ℕ → Fields → String → Value → Fields → Attempt Fields
  unfolding node_to_map
  bind_from zero bind_vars k v store = panics
  bind_from (suc fuel) bind_vars k v store =
      let shorter = bind_from fuel bind_vars (trim_suffix k) (list (cons v nil)) store in
      attempt (eval_any l store v) >>= λ vv.
      if has_suffix k
      then shorter
      else attempt (p.parse k) >>= λ n.
          node_to_map store n vv >>= λ kv. yields (merge_vars kv bind_vars)

  unfoldable pub eval_bind_key_value : Fields → String → Value → Fields → Attempt Fields
  unfolding bind_from
  eval_bind_key_value bind_vars k v store = bind_from (suc (count k)) bind_vars k v store

  -- The loop over the sorted keys of `cond`. What a round has bound stays bound if a later one fails.
  unfoldable pub bind_keys : Fields → Fields → List String → Fields → Attempt (Unit {0}) × Fields
  unfolding eval_bind_key_value
  bind_keys cond store [] bind_vars = (yields tt, bind_vars)
  bind_keys cond store (k ∷ keys) bind_vars =
      if is_reserved k
      then (fails (message "reserved"), bind_vars)
      else elim (eval_bind_key_value bind_vars k (or_null (get k cond)) store) [
        | panics ↦ (panics, bind_vars)
        | fails e ↦ (fails e, bind_vars)
        | yields kv ↦ bind_keys cond store keys kv
      ]
