-- ===== src/RunbookFile/Mapped.antt =====
-- Runbooks whose steps stand under keys: `parseRunbookMapped` and `MarshalYAML` of runbook.go.
use mathlib.Core.List.{◌++◌}
use runn.Common.{String, true, Option, none, some, List, [], ◌∷◌, eqb, length, if◌then◌else◌}
use runn.CdpFunctions.{contains}
use runn.Errors.{message, Result, ok, err}
use runn.Book.Changes.{Changed, fails, done}
use runn.RunbookFile.{Yaml, Items, RunbookFile, RunbookMapped, null, text, yaml_slice, end, item}

-- A key is told apart only after its step has been appended.
abbrev pub add_step : String → Items → RunbookFile → RunbookFile
add_step k v rb = record rb { step_keys = rb.step_keys ++ (k ∷ []); steps = rb.steps ++ (v ∷ []) }

-- The items must be texts with maps.
abbrev pub step_of : Yaml → Yaml → Option (String × Items)
step_of (text k) (yaml_slice v) = some (k, v)
step_of k v = none

unfoldable pub parse_steps : List String → Items → RunbookFile → Changed RunbookFile
parse_steps seen end rb = done rb
parse_steps seen (item key val rest) rb = elim (step_of key val) [
  | none ↦ fails (message "failed to parse as mapped steps") rb
  | some (k, v) ↦
      if contains seen k
      then fails (message "duplicate step keys") (add_step k v rb)
      else parse_steps (k ∷ seen) rest (add_step k v rb)
]

-- `loop` and `concurrency` are not taken over.
abbrev pub take_over : RunbookMapped → RunbookFile → RunbookFile
take_over m rb = record rb {
  use_map = true;
  desc = m.desc;
  labels = m.labels;
  runners = m.runners;
  vars = m.vars;
  host_rules = m.host_rules;
  debug = m.debug;
  interval = m.interval;
  if_cond = m.if_cond;
  skip_test = m.skip_test;
  force = m.force;
  trace = m.trace;
}

-- `parseRunbookMapped`, after YAML.
unfoldable pub parse_runbook_mapped : RunbookMapped → RunbookFile → Changed RunbookFile
unfolding parse_steps
parse_runbook_mapped m rb = parse_steps [] m.steps (take_over m rb)

pub data Marshalled : Type 0 where
  as_listed : RunbookFile → Marshalled
  as_mapped : RunbookMapped → Marshalled

-- `rb.Steps[i]` under the `i`-th key; the counts are the same.
unfoldable pub steps_of : List String → List Items → Items
steps_of [] steps = end
steps_of (k ∷ keys) [] = end
steps_of (k ∷ keys) (s ∷ steps) = item (text k) (yaml_slice s) (steps_of keys steps)

abbrev pub mapped_of : RunbookFile → RunbookMapped
mapped_of rb = record {
  desc = rb.desc;
  labels = rb.labels;
  runners = rb.runners;
  vars = rb.vars;
  steps = steps_of rb.step_keys rb.steps;
  host_rules = rb.host_rules;
  debug = rb.debug;
  interval = rb.interval;
  if_cond = rb.if_cond;
  skip_test = rb.skip_test;
  loop = null;
  concurrency = null;
  force = rb.force;
  trace = rb.trace;
}

-- `MarshalYAML`
unfoldable pub marshal_yaml : RunbookFile → Result Marshalled
unfolding steps_of
marshal_yaml rb =
    if rb.use_map
    then (if eqb (length rb.step_keys) (length rb.steps)
        then ok (as_mapped (mapped_of rb))
        else err (message "invalid runbook"))
    else ok (as_listed rb)
