-- ===== src/StepKeys/Single.antt =====
-- A step that `validateStepKeys` accepts leaves one key at most to the runner.
use runn.Common.{
  suc, ◌≤◌, String, ◌≡◌, refl, sym, ap, ◌∙◌, subst, ◌⊎◌, inl, inr, Bool, true, false, Option, none,
  some, List, [], ◌∷◌, ◌==◌, ◌||◌, eq_iff, if◌then◌else◌, ltb, eqb, Bool-cases, arith,
}
use runn.Value.{Value, Fields, end, field}
use runn.Value.Maps.{get}
use runn.Errors.{Error}
use runn.Bind.{Attempt, panics, fails, yields}
use runn.Operator.{Step}
use runn.CdpFunctions.{contains}
use runn.LoopSection.{LoopReader}
use runn.Parse.Command.{size}
use runn.Parse.Requests.{yields-bind, yields_injective}
use runn.AppendStep.{
  remove, section, Pass, then_pass, sections, if_section, desc_section, loop_section, test_section,
  dump_section, bind_section,
}
use runn.StepKeys.{section_keys, custom, validate_step_keys}

chosen : {A : Type 0} (b : Bool) (x y : A) → b ≡ false → (if b then x else y) ≡ y
chosen b x y h = rw h refl

remove-absent : (k : String) (s : Fields) → get k s ≡ none → remove k s ≡ s
unfolding get remove
remove-absent k end h = refl
remove-absent k (field j v s) h = elim (Bool-cases (j == k)) [
  | inl here ↦ absurd (found (sym (ap (λ b. if b then some v else get k s) here) ∙ h))
  | inr other ↦
      chosen (j == k) _ _ other
      ∙ ap (field j v) (remove-absent k s (sym (ap (λ b. if b then some v else get k s) other) ∙ h))
]
  where
    found : some v ≡ none → ⊥
    found e = absurd (cc)

-- What a pass leaves of the map.
Leaves : (Fields → Fields) → Pass → Type 0
Leaves f pass = (p q : Step × Fields) → pass p ≡ yields q → q.1 ≡ f p.1

section-Leaves :
    {X : Type 0} (k : String) (read : Value → Attempt X) (set : X → Step → Step)
    → Leaves (remove k) (section k read set)
unfolding section Leaves
section-Leaves {X} k read set (step, s) p h = by_value (get k s) refl h
  where
    by_read :
        (a : Attempt X)
        → elim a [
          | panics ↦ panics
          | fails e ↦ fails e
          | yields x ↦ yields (set x step, remove k s)
        ]
          ≡ yields p
        → p.1 ≡ remove k s
    by_read panics h = absurd (cc)
    by_read (fails e) h = absurd (cc)
    by_read (yields x) h = sym (ap (λ (p : Step × Fields). p.1) (yields_injective h))

    by_value :
        (o : Option Value)
        → get k s ≡ o
        → elim o [
          | none ↦ yields (step, s)
          | some v ↦ elim (read v) [
            | panics ↦ panics
            | fails e ↦ fails e
            | yields x ↦ yields (set x step, remove k s)
          ]
        ]
          ≡ yields p
        → p.1 ≡ remove k s
    by_value none e h =
        sym (ap (λ (p : Step × Fields). p.1) (yields_injective h)) ∙ sym (remove-absent k s e)
    by_value (some v) e h = by_read (read v) h

then-Leaves :
    (f g : Fields → Fields) (a b : Pass)
    → Leaves f a
    → Leaves g b
    → Leaves (λ s. g (f s)) (then_pass a b)
unfolding Leaves
then-Leaves f g a b la lb p q h =
    let (p', h', k) = yields-bind (a p) b q h in lb p' q k ∙ ap g (la p p' h')

if_section-Leaves : Leaves (remove "if") if_section
unfolding if_section
if_section-Leaves = section-Leaves "if" _ _

desc_section-Leaves : Leaves (remove "desc") desc_section
unfolding desc_section
desc_section-Leaves = section-Leaves "desc" _ _

loop_section-Leaves : (r : LoopReader) → Leaves (remove "loop") (loop_section r)
unfolding loop_section
loop_section-Leaves r = section-Leaves "loop" _ _

test_section-Leaves : Leaves (remove "test") test_section
unfolding test_section
test_section-Leaves = section-Leaves "test" _ _

dump_section-Leaves : Leaves (remove "dump") dump_section
unfolding dump_section
dump_section-Leaves = section-Leaves "dump" _ _

bind_section-Leaves : Leaves (remove "bind") bind_section
unfolding bind_section
bind_section-Leaves = section-Leaves "bind" _ _

unfoldable remove_all : List String → Fields → Fields
unfolding remove
remove_all [] s = s
remove_all (k ∷ ks) s = remove_all ks (remove k s)

sections-Leaves : (r : LoopReader) → Leaves (remove_all section_keys) (sections r)
unfolding sections remove_all
sections-Leaves r = then-Leaves _ _ _ _ if_section-Leaves (
    then-Leaves _ _ _ _ desc_section-Leaves (
      then-Leaves _ _ _ _ (loop_section-Leaves r) (
        then-Leaves _ _ _ _ test_section-Leaves
          (then-Leaves _ _ _ _ dump_section-Leaves bind_section-Leaves))))

remove_all-field :
    (ks : List String) (j : String) (v : Value) (s : Fields)
    → remove_all ks (field j v s)
      ≡ (if contains ks j then remove_all ks s else field j v (remove_all ks s))
unfolding remove_all remove
remove_all-field [] j v s = refl
remove_all-field (k ∷ ks) j v s = elim (Bool-cases (j == k)) [
  | inl here ↦
      let turned : (k == j) ≡ true = ground (arith, eq_iff j k, eq_iff k j) in
      ap (λ b. remove_all ks (if b then remove k s else field j v (remove k s))) here
      ∙ sym (
          ap
            (λ b.
              if b || contains ks j
              then remove_all ks (remove k s)
              else field j v (remove_all ks (remove k s)))
            turned)
  | inr other ↦
      let turned : (k == j) ≡ false = ground (arith, eq_iff j k, eq_iff k j) in
      ap (λ b. remove_all ks (if b then remove k s else field j v (remove k s))) other
      ∙ (remove_all-field ks j v (remove k s)
          ∙ sym (
              ap
                (λ b.
                  if b || contains ks j
                  then remove_all ks (remove k s)
                  else field j v (remove_all ks (remove k s)))
                turned))
]

remove_all-end : (ks : List String) → remove_all ks end ≡ end
unfolding remove_all remove
remove_all-end [] = refl
remove_all-end (k ∷ ks) = remove_all-end ks

-- What the sections leave are the keys that `validateStepKeys` counts.
size-remove_all : (s : Fields) → size (remove_all section_keys s) ≡ custom s
unfolding custom
size-remove_all end = ap size (remove_all-end section_keys)
size-remove_all (field k v s) =
    ap size (remove_all-field section_keys k v s)
    ∙ by_key (contains section_keys k) (size-remove_all s)
  where
    by_key :
        (b : Bool)
        → size (remove_all section_keys s) ≡ custom s
        → size (if b then remove_all section_keys s else field k v (remove_all section_keys s))
          ≡ (if b then custom s else suc (custom s))
    by_key true rest = rest
    by_key false rest = ap (λ n. suc n) rest

few-custom : (s : Fields) → validate_step_keys s ≡ none → custom s ≤ 1
unfolding validate_step_keys
few-custom s h = by_tests (eqb (size s) 0) (ltb 1 (custom s)) _ _ refl h
  where
    by_tests :
        (nothing many : Bool) (e₁ e₂ : Error)
        → ltb 1 (custom s) ≡ many
        → (if nothing then some e₁ else if many then some e₂ else none) ≡ none
        → custom s ≤ 1
    by_tests true many e₁ e₂ e h = absurd (cc)
    by_tests false true e₁ e₂ e h = absurd (cc)
    by_tests false false e₁ e₂ e h = ground arith

at_most_one :
    (s : Fields) → size s ≤ 1 → (s ≡ end) ⊎ ((k : String) × (v : Value) × (s ≡ field k v end))
at_most_one end h = inl refl
at_most_one (field k v end) h = inr (k, v, refl)
at_most_one (field k v (field j w s)) h = absurd (omega arith)

-- Of a step whose keys `validateStepKeys` accepts, the sections of `AppendStep` leave one key at most, so
-- that `pop` has no choice: whatever the order in which Go goes through the map, the runner is the same.
pub sections-single :
    (r : LoopReader) (step : Step) (s : Fields) (p : Step × Fields)
    → validate_step_keys s ≡ none
    → sections r (step, s) ≡ yields p
    → (p.1 ≡ end) ⊎ ((k : String) × (v : Value) × (p.1 ≡ field k v end))
unfolding Leaves
sections-single r step s p valid h =
    let left = sections-Leaves r (step, s) p h in
    at_most_one p.1
      (subst (λ n. n ≤ 1) (sym (ap size left ∙ size-remove_all s)) (few-custom s valid))
