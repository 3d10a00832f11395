-- ===== src/Common/Places.antt =====
-- What a list with one more element at its end holds at each place.
use Prim.Native.Nat.{ℕ, zero, suc, ◌<◌}
use mathlib.Core.Path.{◌≡◌, refl, ap}
use mathlib.Core.Logic.{◌⊎◌, inl, inr}
use mathlib.Core.List.{List, [], ◌∷◌, ◌++◌}
use mathlib.Core.Option.{some}
use native.Mathlib.Omega.{arith}
use runn.Common.Lists.{length, get_elem?}

module _ {ℓ} {A : Type ℓ} where
  pub some-injective : {x y : A} → some x ≡ some y → x ≡ y
  some-injective h = cc

  pub get_elem?-before :
      (xs : List A) (y : A) (j : ℕ) {x : A}
      → get_elem? xs j ≡ some x
      → get_elem? (xs ++ y ∷ []) j ≡ some x
  get_elem?-before [] y j h = absurd (cc)
  get_elem?-before (z ∷ xs) y zero h = h
  get_elem?-before (z ∷ xs) y (suc j) h = get_elem?-before xs y j h

  pub get_elem?-at_end : (xs : List A) (y : A) → get_elem? (xs ++ y ∷ []) (length xs) ≡ some y
  get_elem?-at_end [] y = refl
  get_elem?-at_end (z ∷ xs) y = get_elem?-at_end xs y

  pub get_elem?-snoc :
      (xs : List A) (y : A) (j : ℕ) {x : A}
      → get_elem? (xs ++ y ∷ []) j ≡ some x
      → ((get_elem? xs j ≡ some x) × (j < length xs)) ⊎ ((j ≡ length xs) × (y ≡ x))
  get_elem?-snoc [] y zero h = inr (refl, some-injective h)
  get_elem?-snoc [] y (suc j) h = absurd (cc)
  get_elem?-snoc (z ∷ xs) y zero h = inl (h, omega arith)
  get_elem?-snoc (z ∷ xs) y (suc j) h = elim (get_elem?-snoc xs y j h) [
    | inl (known, before) ↦ inl (known, omega (arith, before))
    | inr (last, same) ↦ inr (ap suc last, same)
  ]
