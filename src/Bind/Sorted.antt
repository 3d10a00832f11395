-- ===== src/Bind/Sorted.antt =====
-- `lo.Keys` and `sort.Slice` as the bind runner uses them: the keys of a map in ascending order.
use Prim.Native.String.{String, compare}
use Prim.Native.Nat.{Ordering}
use mathlib.Core.Bool.{Bool, true, false}
use mathlib.Core.List.{List, [], ◌∷◌}
use runn.Common.{if◌then◌else◌}
use runn.Value.{Fields, end, field}

abbrev pub text_lt : String → String → Bool
text_lt a b = elim (compare a b) [ Ordering.lt ↦ true | _ ↦ false ]

unfoldable pub keys : Fields → List String
keys end = []
keys (field k v m) = k ∷ keys m

unfoldable pub insert_key : String → List String → List String
insert_key k [] = k ∷ []
insert_key k (j ∷ l) = if text_lt k j then k ∷ j ∷ l else j ∷ insert_key k l

unfoldable pub sort_keys : List String → List String
unfolding insert_key
sort_keys [] = []
sort_keys (k ∷ l) = insert_key k (sort_keys l)

unfoldable pub sorted_keys : Fields → List String
unfolding keys sort_keys
sorted_keys m = sort_keys (keys m)
