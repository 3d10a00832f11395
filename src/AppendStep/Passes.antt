-- ===== src/AppendStep/Passes.antt =====
-- The passes of `AppendStep` over the sections of a step leave its requests unset.
use runn.Common.{String, ◌≡◌, refl, subst, ap, Option, none, some}
use runn.Value.{Value, Fields}
use runn.Value.Maps.{get}
use runn.Bind.{Attempt, panics, fails, yields}
use runn.Operator.{Step}
use runn.LoopSection.{LoopReader}
use runn.Parse.Requests.{yields-bind, yields_injective}
use runn.AppendStep.{
  new_step, remove, section, sections, Pass, then_pass, if_section, desc_section, loop_section,
  test_section, dump_section, bind_section,
}

-- The step before its runner is set.
abbrev pub IsBlank : String → Step → Type 0
IsBlank key step =
    (step.key ≡ key)
    × (step.http_request ≡ none)
    × (step.db_query ≡ none)
    × (step.grpc_request ≡ none)
    × (step.cdp_actions ≡ none)
    × (step.ssh_command ≡ none)
    × (step.exec_command ≡ none)
    × (step.include_config ≡ none)

pub new_step-IsBlank : (key : String) → IsBlank key (new_step key)
unfolding new_step
new_step-IsBlank key = (refl, refl, refl, refl, refl, refl, refl, refl)

-- What a pass over a step leaves as it is.
Keeps : (Step → Type 0) → Pass → Type 0
Keeps Q f = (p q : Step × Fields) → f p ≡ yields q → Q p.0 → Q q.0

module _ (Q : Step → Type 0) where
  -- A section leaves a property of the step that its setter leaves.
  section-Keeps :
      {X : Type 0} (k : String) (read : Value → Attempt X) (set : X → Step → Step)
      → ((x : X) (step : Step) → Q step → Q (set x step))
      → Keeps Q (section k read set)
  unfolding section Keeps
  section-Keeps {X} k read set keeps (step, s) p h q = by_value (get k s) h
    where
      by_read :
          (a : Attempt X)
          → elim a [
            | panics ↦ panics
            | fails e ↦ fails e
            | yields x ↦ yields (set x step, remove k s)
          ]
            ≡ yields p
          → Q p.0
      by_read panics h = absurd (cc)
      by_read (fails e) h = absurd (cc)
      by_read (yields x) h =
          subst Q (ap (λ (p : Step × Fields). p.0) (yields_injective h)) (keeps x step q)

      by_value :
          (o : Option Value)
          → elim o [
            | none ↦ yields (step, s)
            | some v ↦ elim (read v) [
              | panics ↦ panics
              | fails e ↦ fails e
              | yields x ↦ yields (set x step, remove k s)
            ]
          ]
            ≡ yields p
          → Q p.0
      by_value none h = subst Q (ap (λ (p : Step × Fields). p.0) (yields_injective h)) q
      by_value (some v) h = by_read (read v) h

  then-Keeps : (f g : Pass) → Keeps Q f → Keeps Q g → Keeps Q (then_pass f g)
  unfolding Keeps
  then-Keeps f g kf kg p q h b =
      let (p', h', k) = yields-bind (f p) g q h in kg p' q k (kf p p' h' b)

module _ (key : String) where
  if_section-Keeps : Keeps (IsBlank key) if_section
  unfolding if_section
  if_section-Keeps = section-Keeps (IsBlank key) _ _ _ (λ _ _ b. b)

  desc_section-Keeps : Keeps (IsBlank key) desc_section
  unfolding desc_section
  desc_section-Keeps = section-Keeps (IsBlank key) _ _ _ (λ _ _ b. b)

  loop_section-Keeps : (r : LoopReader) → Keeps (IsBlank key) (loop_section r)
  unfolding loop_section
  loop_section-Keeps r = section-Keeps (IsBlank key) _ _ _ (λ _ _ b. b)

  test_section-Keeps : Keeps (IsBlank key) test_section
  unfolding test_section
  test_section-Keeps = section-Keeps (IsBlank key) _ _ _ (λ _ _ b. b)

  dump_section-Keeps : Keeps (IsBlank key) dump_section
  unfolding dump_section
  dump_section-Keeps = section-Keeps (IsBlank key) _ _ _ (λ _ _ b. b)

  bind_section-Keeps : Keeps (IsBlank key) bind_section
  unfolding bind_section
  bind_section-Keeps = section-Keeps (IsBlank key) _ _ _ (λ _ _ b. b)

  sections-Keeps : (r : LoopReader) → Keeps (IsBlank key) (sections r)
  unfolding sections
  sections-Keeps r = then-Keeps _ _ _ if_section-Keeps (
      then-Keeps _ _ _ desc_section-Keeps (
        then-Keeps _ _ _ (loop_section-Keeps r) (
          then-Keeps _ _ _ test_section-Keeps
            (then-Keeps _ _ _ dump_section-Keeps bind_section-Keeps))))

  pub sections-IsBlank :
      (r : LoopReader) (p q : Step × Fields)
      → sections r p ≡ yields q
      → IsBlank key p.0
      → IsBlank key q.0
  unfolding Keeps
  sections-IsBlank r = sections-Keeps r
