-- ===== src/RunbookFile.antt =====
-- runbook.go: a runbook as it stands in a file, with its steps in a list or under keys. What yaml.v2
-- reads is a `Yaml`: maps keep the types of their keys, and the steps the order of their items.
pub mod Normal
pub mod Mapped
pub mod Reading
pub mod RunnerKeys
pub mod Appending
pub mod Growing
pub mod NilRunners
pub mod Broken
pub mod ToBook
use runn.Common.{
  ℕ, String, Bool, true, false, Option, none, some, List, [], ◌∷◌, ◌==◌, ◌||◌, if◌then◌else◌,
}
use runn.Common.Int.{ℤ, pos, negsuc}
use runn.Common.Replacing.{has_text}
use runn.Errors.{Error, message}

-- `yaml_slice` is a `yaml.MapSlice`, `any_map` a `map[any]any` and `string_map` a `map[string]any`.
mutual
  pub data Yaml : Type 0 where
    null : Yaml
    bool : Bool → Yaml
    int : ℤ → Yaml
    uint : ℕ → Yaml
    float : ℕ → Yaml
    text : String → Yaml
    list : Yamls → Yaml
    any_map : Items → Yaml
    string_map : NamedItems → Yaml
    yaml_slice : Items → Yaml
    maps : Maps → Yaml

  pub data Yamls : Type 0 where
    nil : Yamls
    cons : Yaml → Yamls → Yamls

  pub data Items : Type 0 where
    end : Items
    item : Yaml → Yaml → Items → Items

  pub data NamedItems : Type 0 where
    stop : NamedItems
    named : String → Yaml → NamedItems → NamedItems

  -- A `[]map[string]any`.
  pub data Maps : Type 0 where
    no_maps : Maps
    one_map : NamedItems → Maps → Maps

-- The runners are values; a runner that runn itself adds is a text. A nil map of runners is `none`: it
-- is read as an empty one, and a write to it panics.
pub record RunbookFile : Type 0 where
  pub desc : String
  pub labels : List String
  pub runners : Option NamedItems
  pub vars : NamedItems
  pub steps : List Items
  pub host_rules : Items
  pub debug : Bool
  pub interval : String
  pub if_cond : String
  pub skip_test : Bool
  pub loop : Yaml
  pub concurrency : Yaml
  pub force : Bool
  pub trace : Bool
  pub use_map : Bool
  pub step_keys : List String

pub record RunbookMapped : Type 0 where
  pub desc : String
  pub labels : List String
  pub runners : Option NamedItems
  pub vars : NamedItems
  pub steps : Items
  pub host_rules : Items
  pub debug : Bool
  pub interval : String
  pub if_cond : String
  pub skip_test : Bool
  pub loop : Yaml
  pub concurrency : Yaml
  pub force : Bool
  pub trace : Bool

abbrev pub named_items : Option NamedItems → NamedItems
named_items none = stop
named_items (some m) = m

unfoldable pub new_runbook : String → RunbookFile
new_runbook desc = record {
  desc = if desc == "" then "Generated by `runn new`" else desc;
  labels = [];
  runners = some stop;
  vars = stop;
  steps = [];
  host_rules = end;
  debug = false;
  interval = "";
  if_cond = "";
  skip_test = false;
  loop = null;
  concurrency = null;
  force = false;
  trace = false;
  use_map = false;
  step_keys = [];
}

abbrev pub invalid_label_tokens : List String
invalid_label_tokens =
    " " ∷ "\n" ∷ "\r" ∷ "!" ∷ "+" ∷ "=" ∷ "|" ∷ "." ∷ "*" ∷ "%" ∷ "^" ∷ "?" ∷ ">" ∷ "<" ∷ []

unfoldable pub has_any : List String → String → Bool
unfolding has_text
has_any [] l = false
has_any (t ∷ tokens) l = has_text t l || has_any tokens l

unfoldable pub validate_labels : List String → Option Error
unfolding has_any
validate_labels [] = none
validate_labels (l ∷ labels) =
    let rest = validate_labels labels in
    if has_any invalid_label_tokens l then some (message "invalid label") else rest

-- `validate`
unfoldable pub validate : RunbookFile → Option Error
unfolding validate_labels
validate rb = validate_labels rb.labels
