-- ===== src/Bind/Merge.antt =====
-- `mergeVars` and `mergeMapAny` of bind.go. The recursion is on the value that is merged in.
use runn.Common.{none, some}
use runn.Value.{Value, list, dict, any_dict, Fields, end, field, Entries, stop, entry, text_key}
use runn.Value.Maps.{get, put, append, get_entry, put_entry}

-- The loop that converts a `map[string]any` to a `map[any]any`.
unfoldable pub to_entries : Fields → Entries
to_entries end = stop
to_entries (field k v m) = entry (text_key k) v (to_entries m)

-- In each function the first argument is merged into the second, which starts as a copy of `org`.
-- `merge_value` is the switch of `mergeVars` and `merge_any_value` that of `mergeMapAny`;
-- `merge_converted vv` is `mergeMapAny` of `vv` converted to a `map[any]any`.
unfoldable mutual
  pub merge_value : Value → Value → Value
  merge_value (dict vv) (dict svv) = dict (merge_vars vv svv)
  merge_value (dict vv) (any_dict svv) = any_dict (merge_converted vv svv)
  merge_value (any_dict vv) (dict svv) = any_dict (merge_map_any vv (to_entries svv))
  merge_value (any_dict vv) (any_dict svv) = any_dict (merge_map_any vv svv)
  merge_value (list vv) (list svv) = list (append svv vv)
  merge_value v sv = v

  pub merge_any_value : Value → Value → Value
  merge_any_value (dict vv) (dict svv) = dict (merge_vars vv svv)
  merge_any_value (any_dict vv) (any_dict svv) = any_dict (merge_map_any vv svv)
  merge_any_value (list vv) (list svv) = list (append svv vv)
  merge_any_value v sv = v

  pub merge_vars : Fields → Fields → Fields
  merge_vars end store = store
  merge_vars (field k v vars) store =
      merge_vars vars (put k (elim (get k store) [ none ↦ v | some sv ↦ merge_value v sv ]) store)

  pub merge_map_any : Entries → Entries → Entries
  merge_map_any stop store = store
  merge_map_any (entry k v vars) store =
      merge_map_any vars
        (put_entry k (elim (get_entry k store) [ none ↦ v | some sv ↦ merge_any_value v sv ]) store)

  pub merge_converted : Fields → Entries → Entries
  merge_converted end store = store
  merge_converted (field k v vars) store = merge_converted vars (
      put_entry (text_key k)
        (elim (get_entry (text_key k) store) [ none ↦ v | some sv ↦ merge_any_value v sv ]) store)
