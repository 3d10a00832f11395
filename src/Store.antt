-- ===== src/Store.antt =====
-- store.go: what a run of a runbook has recorded. A Go panic is `none`.
pub mod View
pub mod Record
pub mod Root
pub mod Cookies
use runn.Common.{
  ℕ, ◌+◌, ◌-◌, String, Bool, true, false, Option, none, some, List, [], ◌∷◌, ◌++◌, ltb, eqb, length,
  get_elem?, set, last?, drop_last, if◌then◌else◌, Dict, lookup, insert, erase,
}
use runn.Value.{Value, Fields, end, Cookie}
use runn.Value.Maps.{put}

pub record Store : Type 0 where
  pub steps : List Fields
  pub step_map_keys : List String
  pub step_map : Dict Fields
  pub vars : Fields
  pub funcs : Fields
  pub bind_vars : Fields
  pub parent_vars : Option Fields
  pub use_map : Bool
  pub loop_index : Option ℕ
  pub cookies : Option (Dict (Dict Cookie))

unfoldable pub record_as_mapped : Store → String → Fields → Option Store
record_as_mapped s k v =
    if s.use_map
    then some
        (record s { step_map = insert k v s.step_map; step_map_keys = s.step_map_keys ++ k ∷ [] })
    else none

-- `s.stepMapKeys[len(s.stepMapKeys)-1]` panics on an empty slice.
unfoldable pub remove_latest_as_mapped : Store → Option Store
remove_latest_as_mapped s =
    if s.use_map
    then elim (last? s.step_map_keys) [
      | none ↦ none
      | some latest_key ↦ some (record s {
        step_map = erase latest_key s.step_map;
        step_map_keys = drop_last s.step_map_keys;
      })
    ]
    else none

unfoldable pub record_as_listed : Store → Fields → Option Store
record_as_listed s v = if s.use_map then none else some (record s { steps = s.steps ++ v ∷ [] })

unfoldable pub store_length : Store → ℕ
store_length s = if s.use_map then length s.step_map_keys else length s.steps

-- `s.stepMap[k]` of a key that the slice of keys may not have; `nil` is `none`.
abbrev pub step_at : Option String → Dict Fields → Option Fields
step_at none m = none
step_at (some k) m = lookup k m

unfoldable pub previous : Store → Option Fields
previous s =
    if s.use_map
    then if ltb (length s.step_map_keys) 2
      then none
      else step_at (get_elem? s.step_map_keys (length s.step_map_keys - 2)) s.step_map
    else if ltb (length s.steps) 2
    then none
    else get_elem? s.steps (length s.steps - 2)

unfoldable pub latest : Store → Option Fields
latest s = if s.use_map then step_at (last? s.step_map_keys) s.step_map else last? s.steps

-- The write goes to the map that the slice or the step map holds. `none` is the error
-- "failed to record".
unfoldable pub record_to_latest : Store → String → Value → Option Store
record_to_latest s key value =
    if s.use_map
    then elim (last? s.step_map_keys) [
      | none ↦ none
      | some lk ↦ elim (lookup lk s.step_map) [
        | none ↦ none
        | some m ↦ some (record s { step_map = insert lk (put key value m) s.step_map })
      ]
    ]
    else elim (last? s.steps) [
      | none ↦ none
      | some m ↦ some (record s { steps = set s.steps (length s.steps - 1) (put key value m) })
    ]

unfoldable pub clear_steps : Store → Store
clear_steps s = record s {
  steps = [];
  step_map_keys = [];
  step_map = [];
  parent_vars = some end;
  loop_index = none;
}
