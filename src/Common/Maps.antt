-- ===== src/Common/Maps.antt =====
-- Go's `map[string]V` as an association list. A key that is written again keeps its place, so the
-- order of the list is that of first insertion; Go fixes no order.
use Prim.Native.String.{String}
use mathlib.Core.Path.{◌≡◌, refl}
use mathlib.Core.Option.{Option, none, some}
use mathlib.Core.List.{List, [], ◌∷◌}
use native.Mathlib.Omega.{arith}
use text.Mathlib.Text.{◌==◌}
use text.Mathlib.TextEquality.{eq_iff}
use runn.Common.Tests.{if◌then◌else◌}

abbrev pub Dict {ℓ} : Type ℓ → Type ℓ
Dict V = List (String × V)

module _ {ℓ} {V : Type ℓ} where
  -- `d[name]`
  unfoldable pub lookup : String → Dict V → Option V
  lookup name [] = none
  lookup name ((here, val) ∷ rest) = if here == name then some val else lookup name rest

  -- `d[name] = val`
  unfoldable pub insert : String → V → Dict V → Dict V
  insert name val [] = (name, val) ∷ []
  insert name val ((here, old) ∷ rest) =
      if here == name then (name, val) ∷ rest else (here, old) ∷ insert name val rest

  -- `delete(d, name)`
  unfoldable pub erase : String → Dict V → Dict V
  erase name [] = []
  erase name ((here, val) ∷ rest) =
      let others = erase name rest in if here == name then others else (here, val) ∷ others

  pub lookup-insert :
      (name at : String) (val : V) (d : Dict V)
      → lookup at (insert name val d) ≡ (if name == at then some val else lookup at d)
  unfolding lookup insert
  lookup-insert name at val [] = refl
  lookup-insert name at val ((here, old) ∷ rest) =
      let others = lookup-insert name at val rest in
      ground (arith, others, eq_iff here at, eq_iff here name, eq_iff name at)

  pub lookup-erase :
      (name at : String) (d : Dict V)
      → lookup at (erase name d) ≡ (if name == at then none else lookup at d)
  unfolding lookup erase
  lookup-erase name at [] = ground arith
  lookup-erase name at ((here, val) ∷ rest) =
      let others = lookup-erase name at rest in
      ground (arith, others, eq_iff here at, eq_iff here name, eq_iff name at)

pub ruleset dict_laws = (lookup-insert, lookup-erase)
