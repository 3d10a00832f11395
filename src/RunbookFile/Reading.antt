-- ===== src/RunbookFile/Reading.antt =====
-- What `parseRunbookMapped` of runbook.go reads, and `MarshalYAML` writes again.
use mathlib.Core.List.{◌++◌, append_assoc, append-nil}
use runn.Common.{
  String, ◌≡◌, ◌≢◌, refl, sym, ap, ◌∙◌, Bool, true, false, Option, none, some, List, [], ◌∷◌, subst,
  eq_iff, length, if◌then◌else◌, arith, All,
}
use runn.CdpFunctions.{contains}
use runn.Errors.{message, ok}
use runn.Book.Changes.{Changed, fails, done}
use runn.Store.View.{Distinct}
use runn.RunbookFile.{Yaml, Items, RunbookFile, RunbookMapped, null, text, yaml_slice, end, item}
use runn.RunbookFile.Mapped.{
  add_step, step_of, parse_steps, take_over, parse_runbook_mapped, as_mapped, steps_of, mapped_of,
  marshal_yaml,
}

abbrev with_steps : RunbookFile → List String → List Items → RunbookFile
with_steps rb keys steps = record rb { step_keys = keys; steps = steps }

same_steps :
    (rb : RunbookFile) {keys keys' : List String} {steps steps' : List Items}
    → keys ≡ keys'
    → steps ≡ steps'
    → with_steps rb keys steps ≡ with_steps rb keys' steps'
same_steps rb {keys' = keys'} {steps = steps} e f =
    ap (λ k. with_steps rb k steps) e ∙ ap (λ s. with_steps rb keys' s) f

abbrev Unseen : List String → List String → Type 0
Unseen seen keys = All (λ k. contains seen k ≡ false) keys

Unseen-uncons :
    (seen : List String) (k : String) (keys : List String)
    → Unseen (k ∷ seen) keys
    → All (λ j. j ≢ k) keys × Unseen seen keys
Unseen-uncons seen k [] u = (tt, tt)
Unseen-uncons seen k (j ∷ keys) (h, u) =
    let (fresh, unseen) = Unseen-uncons seen k keys u in
    ((λ e. ground (arith, eq_iff k j), fresh), (ground (arith, eq_iff k j), unseen))

step_of-some :
    (key val : Yaml) (k : String) (v : Items)
    → step_of key val ≡ some (k, v)
    → (key ≡ text k) × (val ≡ yaml_slice v)
step_of-some (text k') (yaml_slice v') k v h = ground arith
step_of-some _ _ k v h = absurd (cc)

done-injective : {a b : RunbookFile} → done a ≡ done b → a ≡ b
done-injective h = cc

-- The steps that `parseRunbookMapped` has read stand behind those of the runbook, under keys that are
-- new and differ, and `MarshalYAML` writes the items from which they are read.
record Read (seen : List String) (items : Items) (rb rb' : RunbookFile) : Type 0 where
  keys : List String
  steps : List Items
  same : rb' ≡ with_steps rb (rb.step_keys ++ keys) (rb.steps ++ steps)
  written : steps_of keys steps ≡ items
  size : length keys ≡ length steps
  distinct : Distinct keys
  unseen : Unseen seen keys

Read-item :
    (seen : List String) (key val : Yaml) (rest : Items) (k : String) (v : Items)
    (rb rb' : RunbookFile)
    → step_of key val ≡ some (k, v)
    → contains seen k ≡ false
    → Read (k ∷ seen) rest (add_step k v rb) rb'
    → Read seen (item key val rest) rb rb'
unfolding steps_of
Read-item seen key val rest k v rb rb' h new r =
    let (is_key, is_val) = step_of-some key val k v h in
    let (fresh, unseen) = Unseen-uncons seen k r.keys r.unseen in
    record {
      keys = k ∷ r.keys;
      steps = v ∷ r.steps;
      same =
          r.same
          ∙ same_steps rb (append_assoc rb.step_keys (k ∷ []) r.keys)
              (append_assoc rb.steps (v ∷ []) r.steps);
      written =
          ap (λ i. item (text k) (yaml_slice v) i) r.written
          ∙ (ap (λ key. item key (yaml_slice v) rest) (sym is_key)
              ∙ ap (λ val. item key val rest) (sym is_val));
      size = omega (arith, r.size);
      distinct = (fresh, r.distinct);
      unseen = (new, unseen);
    }

parse_steps-Read :
    (seen : List String) (items : Items) (rb rb' : RunbookFile)
    → parse_steps seen items rb ≡ done rb'
    → Read seen items rb rb'
unfolding parse_steps steps_of
parse_steps-Read seen end rb rb' h = record {
  keys = [];
  steps = [];
  same =
      sym (done-injective h)
      ∙ same_steps rb (sym (append-nil rb.step_keys)) (sym (append-nil rb.steps));
  written = refl;
  size = refl;
  distinct = tt;
  unseen = tt;
}
parse_steps-Read seen (item key val rest) rb rb' h =
    by_step (step_of key val) refl (λ k. parse_steps-Read (k ∷ seen) rest) h
  where
    by_key :
        (k : String) (v : Items) (b : Bool)
        → step_of key val ≡ some (k, v)
        → contains seen k ≡ b
        → ((rb rb' : RunbookFile)
            → parse_steps (k ∷ seen) rest rb ≡ done rb'
            → Read (k ∷ seen) rest rb rb')
        → (if b
            then fails (message "duplicate step keys") (add_step k v rb)
            else parse_steps (k ∷ seen) rest (add_step k v rb))
          ≡ done rb'
        → Read seen (item key val rest) rb rb'
    by_key k v true e c next h = absurd (cc)
    by_key k v false e c next h =
        Read-item seen key val rest k v rb rb' e c (next (add_step k v rb) rb' h)

    by_step :
        (o : Option (String × Items))
        → step_of key val ≡ o
        → ((k : String) (rb rb' : RunbookFile)
            → parse_steps (k ∷ seen) rest rb ≡ done rb'
            → Read (k ∷ seen) rest rb rb')
        → elim o as (λ _. Changed RunbookFile) [
          | none ↦ fails (message "failed to parse as mapped steps") rb
          | some (k, v) ↦
              if contains seen k
              then fails (message "duplicate step keys") (add_step k v rb)
              else parse_steps (k ∷ seen) rest (add_step k v rb)
        ]
          ≡ done rb'
        → Read seen (item key val rest) rb rb'
    by_step none e next h = absurd (cc)
    by_step (some (k, v)) e next h = by_key k v (contains seen k) e refl (next k) h

pub marshal_mapped :
    (rb : RunbookFile)
    → rb.use_map ≡ true
    → length rb.step_keys ≡ length rb.steps
    → marshal_yaml rb ≡ ok (as_mapped (mapped_of rb))
unfolding marshal_yaml
marshal_mapped rb mapped h = ground (arith, mapped, h)

-- If `parseRunbookMapped` fills a runbook without steps from a mapped one, then the steps' keys are all
-- different, there are as many keys as steps, and `MarshalYAML` returns the mapped runbook again, with
-- the steps under their keys in order, but for `loop` and `concurrency`, which are lost.
pub marshal_yaml-parse_runbook_mapped :
    (m : RunbookMapped) (blank rb : RunbookFile)
    → blank.step_keys ≡ []
    → blank.steps ≡ []
    → parse_runbook_mapped m blank ≡ done rb
    → Distinct rb.step_keys
      × (length rb.step_keys ≡ length rb.steps)
      × (marshal_yaml rb ≡ ok (as_mapped (record m { loop = null; concurrency = null })))
unfolding parse_runbook_mapped
marshal_yaml-parse_runbook_mapped m blank rb no_keys no_steps h =
    let read = parse_steps-Read [] m.steps (take_over m blank) rb h in
    let filled : RunbookFile = with_steps (take_over m blank) read.keys read.steps in
    let same : rb ≡ filled =
      read.same
      ∙ same_steps (take_over m blank) (ap (λ l. l ++ read.keys) no_keys)
          (ap (λ l. l ++ read.steps) no_steps) in
    let size : length filled.step_keys ≡ length filled.steps = read.size in
    (
      subst (λ (rb : RunbookFile). Distinct rb.step_keys) (sym same) read.distinct,
      subst (λ (rb : RunbookFile). length rb.step_keys ≡ length rb.steps) (sym same) size,
      ap marshal_yaml same
          ∙ (marshal_mapped filled refl size
              ∙ ap (λ i. ok (as_mapped (record m { steps = i; loop = null; concurrency = null })))
                  read.written),
    )

-- The runners are those of the mapped runbook.
pub runners-parse_runbook_mapped :
    (m : RunbookMapped) (blank rb : RunbookFile)
    → parse_runbook_mapped m blank ≡ done rb
    → rb.runners ≡ m.runners
unfolding parse_runbook_mapped
runners-parse_runbook_mapped m blank rb h =
    let read = parse_steps-Read [] m.steps (take_over m blank) rb h in
    ap (λ (rb : RunbookFile). rb.runners) read.same
