-- ===== src/Operator/Fits.antt =====
-- When a store fits a runbook, and what the operations on records leave alone.
use runn.Common.{
  ℕ, String, ◌≡◌, refl, ◌∙◌, true, Option, some, List, [], ◌∷◌, ◌++◌, map, arith, length, take,
  drop_last,
}
use runn.Value.{Fields, Cookie}
use runn.Store.Cookies.{record_to_cookie}
use runn.Store.{Store, record_as_mapped, record_as_listed, remove_latest_as_mapped}
use runn.Store.View.{view, IsStore}
use runn.Operator.{Step, Runbook}

abbrev pub step_keys : Runbook → List String
step_keys b = map (λ (s : Step). s.key) b.steps

-- The store fits the runbook: it has the runbook's form, and the keys of the first steps.
pub record Fits (b : Runbook) (s : Store) : Type 0 where
  pub stored : IsStore s
  pub mode : s.use_map ≡ b.use_map
  pub keys : s.use_map ≡ true → s.step_map_keys ≡ take (length (view s)) (step_keys b)

-- What an operation on records leaves alone.
pub record Keeps (s s' : Store) : Type 0 where
  pub mode : s'.use_map ≡ s.use_map
  pub round : s'.loop_index ≡ s.loop_index
  pub vars : s'.vars ≡ s.vars
  pub bind_vars : s'.bind_vars ≡ s.bind_vars

pub Keeps-trans : {a c e : Store} → Keeps a c → Keeps c e → Keeps a e
Keeps-trans k l = record {
  mode = l.mode ∙ k.mode;
  round = l.round ∙ k.round;
  vars = l.vars ∙ k.vars;
  bind_vars = l.bind_vars ∙ k.bind_vars;
}

pub record_as_mapped-Keeps :
    (s s' : Store) (k : String) (v : Fields)
    → record_as_mapped s k v ≡ some s'
    → Keeps s s' × (s'.step_map_keys ≡ s.step_map_keys ++ k ∷ [])
unfolding record_as_mapped
record_as_mapped-Keeps s s' k v h = ground arith

pub record_as_listed-Keeps :
    (s s' : Store) (v : Fields) → record_as_listed s v ≡ some s' → Keeps s s'
unfolding record_as_listed
record_as_listed-Keeps s s' v h = ground arith

pub remove_latest_as_mapped-Keeps :
    (s s' : Store)
    → remove_latest_as_mapped s ≡ some s'
    → Keeps s s' × (s'.step_map_keys ≡ drop_last s.step_map_keys)
unfolding remove_latest_as_mapped
remove_latest_as_mapped-Keeps s s' h = ground arith

-- A change of the other fields of a store touches no record.
module _ (b : Runbook) (s : Store) (f : Fits b s) where
  pub Fits-bind_vars : (kv : Fields) → Fits b (record s { bind_vars = kv })
  unfolding view
  Fits-bind_vars kv = record {
    stored = record { distinct = f.stored.distinct; present = f.stored.present };
    mode = f.mode;
    keys = f.keys;
  }

  pub Fits-loop_index : (j : Option ℕ) → Fits b (record s { loop_index = j })
  unfolding view
  Fits-loop_index j = record {
    stored = record { distinct = f.stored.distinct; present = f.stored.present };
    mode = f.mode;
    keys = f.keys;
  }

  pub Fits-record_to_cookie : (now : ℕ) (c : List Cookie) → Fits b (record_to_cookie now s c)
  unfolding view record_to_cookie
  Fits-record_to_cookie now c = record {
    stored = record { distinct = f.stored.distinct; present = f.stored.present };
    mode = f.mode;
    keys = f.keys;
  }

module _ (s : Store) where
  pub view-bind_vars : (kv : Fields) → view (record s { bind_vars = kv }) ≡ view s
  unfolding view
  view-bind_vars kv = refl

  pub view-loop_index : (j : Option ℕ) → view (record s { loop_index = j }) ≡ view s
  unfolding view
  view-loop_index j = refl

  pub view-record_to_cookie : (now : ℕ) (c : List Cookie) → view (record_to_cookie now s c) ≡ view s
  unfolding view record_to_cookie
  view-record_to_cookie now c = refl

  pub loop_index-record_to_cookie :
      (now : ℕ) (c : List Cookie) → (record_to_cookie now s c).loop_index ≡ s.loop_index
  unfolding record_to_cookie
  loop_index-record_to_cookie now c = refl
