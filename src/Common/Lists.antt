-- ===== src/Common/Lists.antt =====
-- Lists measured and indexed by native numbers, under the library's names.
use Prim.Native.Nat.{ℕ, zero, suc, ◌+◌, ◌-◌, ◌<◌}
use mathlib.Core.Path.{◌≡◌, refl, ap, subst, ◌∙◌}
use mathlib.Core.Logic.{◌≢◌, ◌⊎◌, inl, inr}
use mathlib.Core.List.{List, [], ◌∷◌, ◌++◌, map}
use mathlib.Core.Option.{Option, none, some}
use native.Mathlib.Omega.{arith}
use runn.Common.Tests.{ltb, if◌then◌else◌}

module _ {ℓ} {A : Type ℓ} where
  abbrev pub length : List A → ℕ
  length [] = 0
  length (x ∷ xs) = suc (length xs)

  abbrev pub get_elem? : List A → ℕ → Option A
  get_elem? [] i = none
  get_elem? (x ∷ xs) zero = some x
  get_elem? (x ∷ xs) (suc i) = get_elem? xs i

  -- A write out of bounds changes nothing.
  abbrev pub set : List A → ℕ → A → List A
  set [] i v = []
  set (x ∷ xs) zero v = v ∷ xs
  set (x ∷ xs) (suc i) v = x ∷ set xs i v

  abbrev pub take : ℕ → List A → List A
  take zero xs = []
  take (suc n) [] = []
  take (suc n) (x ∷ xs) = x ∷ take n xs

  abbrev pub replicate : ℕ → A → List A
  replicate zero a = []
  replicate (suc n) a = a ∷ replicate n a

  -- The last element.
  abbrev pub last? : List A → Option A
  last? [] = none
  last? (x ∷ []) = some x
  last? (x ∷ y ∷ xs) = last? (y ∷ xs)

  -- All but the last element.
  abbrev pub drop_last : List A → List A
  drop_last [] = []
  drop_last (x ∷ []) = []
  drop_last (x ∷ y ∷ xs) = x ∷ drop_last (y ∷ xs)

  -- The last element replaced by its image.
  abbrev pub map_last : (A → A) → List A → List A
  map_last f [] = []
  map_last f (x ∷ []) = f x ∷ []
  map_last f (x ∷ y ∷ xs) = x ∷ map_last f (y ∷ xs)

module _ {ℓ} {A : Type ℓ} where
  pub length-append : (xs ys : List A) → length (xs ++ ys) ≡ length xs + length ys
  length-append [] ys = omega arith
  length-append (x ∷ xs) ys = omega (arith, length-append xs ys)

  pub length-snoc : (xs : List A) (x : A) → length (xs ++ x ∷ []) ≡ suc (length xs)
  length-snoc [] x = refl
  length-snoc (y ∷ xs) x = ap suc (length-snoc xs x)

  pub last?-snoc : (xs : List A) (x : A) → last? (xs ++ x ∷ []) ≡ some x
  last?-snoc [] x = refl
  last?-snoc (y ∷ []) x = refl
  last?-snoc (y ∷ z ∷ xs) x = last?-snoc (z ∷ xs) x

  pub drop_last-snoc : (xs : List A) (x : A) → drop_last (xs ++ x ∷ []) ≡ xs
  drop_last-snoc [] x = refl
  drop_last-snoc (y ∷ []) x = refl
  drop_last-snoc (y ∷ z ∷ xs) x = ap (λ l. y ∷ l) (drop_last-snoc (z ∷ xs) x)

  pub length-drop_last : (xs : List A) → length (drop_last xs) ≡ length xs - 1
  length-drop_last [] = omega arith
  length-drop_last (x ∷ []) = omega arith
  length-drop_last (x ∷ y ∷ xs) = omega (arith, length-drop_last (y ∷ xs))

  pub map_last-snoc : (f : A → A) (xs : List A) (x : A) → map_last f (xs ++ x ∷ []) ≡ xs ++ f x ∷ []
  map_last-snoc f [] x = refl
  map_last-snoc f (y ∷ []) x = refl
  map_last-snoc f (y ∷ z ∷ xs) x = ap (λ l. y ∷ l) (map_last-snoc f (z ∷ xs) x)

  pub length-map_last : (f : A → A) (xs : List A) → length (map_last f xs) ≡ length xs
  length-map_last f [] = refl
  length-map_last f (x ∷ []) = refl
  length-map_last f (x ∷ y ∷ xs) = ap suc (length-map_last f (y ∷ xs))

  pub length-set : (xs : List A) (i : ℕ) (v : A) → length (set xs i v) ≡ length xs
  length-set [] i v = refl
  length-set (x ∷ xs) zero v = refl
  length-set (x ∷ xs) (suc i) v = ap suc (length-set xs i v)

  pub get_elem?-set_self :
      (xs : List A) (i : ℕ) (v : A) → i < length xs → get_elem? (set xs i v) i ≡ some v
  get_elem?-set_self [] i v h = elim h [ ]
  get_elem?-set_self (x ∷ xs) zero v h = refl
  get_elem?-set_self (x ∷ xs) (suc i) v h = get_elem?-set_self xs i v (omega arith)

  pub get_elem?-set_ne :
      (xs : List A) {i j : ℕ} (v : A) → i ≢ j → get_elem? (set xs i v) j ≡ get_elem? xs j
  get_elem?-set_ne [] v h = refl
  get_elem?-set_ne (x ∷ xs) {i = zero} {j = zero} v h = absurd (h refl)
  get_elem?-set_ne (x ∷ xs) {i = zero} {j = suc j} v h = refl
  get_elem?-set_ne (x ∷ xs) {i = suc i} {j = zero} v h = refl
  get_elem?-set_ne (x ∷ xs) {i = suc i} {j = suc j} v h = get_elem?-set_ne xs v (λ e. h (ap suc e))

-- A predicate on every element, by recursion.
abbrev pub All {ℓ κ} : {A : Type ℓ} → (A → Type κ) → List A → Type κ
All holds [] = Unit
All holds (y ∷ l) = holds y × All holds l

module _ {ℓ κ} {A : Type ℓ} (holds : A → Type κ) where
  pub All-snoc : (l : List A) (y : A) → All holds l → holds y → All holds (l ++ y ∷ [])
  All-snoc [] y h last = (last, tt)
  All-snoc (z ∷ l) y (first, h) last = (first, All-snoc l y h last)

module _ {ℓ} {A : Type ℓ} where
  -- Writing the last index is replacing the last element.
  pub set-length :
      (f : A → A) (xs : List A) (x : A)
      → last? xs ≡ some x
      → set xs (length xs - 1) (f x) ≡ map_last f xs
  set-length f [] x h = refl
  set-length f (y ∷ []) x h = ground arith
  set-length f (y ∷ z ∷ xs) x h =
      let e : set (z ∷ xs) (length (z ∷ xs) - 1) (f x) ≡ map_last f (z ∷ xs) =
        set-length f (z ∷ xs) x h in
      ground arith

  -- The last but one.
  pub get_elem?-length :
      (xs : List A)
      → (if ltb (length xs) 2 then none else get_elem? xs (length xs - 2)) ≡ last? (drop_last xs)
  get_elem?-length [] = refl
  get_elem?-length (x ∷ []) = refl
  get_elem?-length (x ∷ y ∷ []) = refl
  get_elem?-length (x ∷ y ∷ z ∷ xs) = let e = get_elem?-length (y ∷ z ∷ xs) in ground arith

pub All-last {ℓ κ} :
    {A : Type ℓ} (P : A → Type κ) (xs : List A) (x : A) → All P (xs ++ x ∷ []) → P x
All-last P [] x h = h.0
All-last P (y ∷ xs) x h = All-last P xs x h.1

pub All-init {ℓ κ} :
    {A : Type ℓ} (P : A → Type κ) (xs : List A) (x : A) → All P (xs ++ x ∷ []) → All P xs
All-init P [] x h = tt
All-init P (y ∷ xs) x h = (h.0, All-init P xs x h.1)

-- A list is empty or ends in an element.
pub Snoc-cases {ℓ} :
    {A : Type ℓ} (xs : List A) → (xs ≡ []) ⊎ ((ys : List A) × (y : A) × (xs ≡ ys ++ y ∷ []))
Snoc-cases [] = inl refl
Snoc-cases (x ∷ xs) = elim (Snoc-cases xs) [
  | inl e ↦ inr ([], x, rw e)
  | inr (ys, y, e) ↦ inr (x ∷ ys, y, rw e)
]

pub last?-eq-none {ℓ} : {A : Type ℓ} (xs : List A) → last? xs ≡ none → xs ≡ []
last?-eq-none [] h = refl
last?-eq-none (x ∷ []) h = cc
last?-eq-none (x ∷ y ∷ xs) h = cc (last?-eq-none (y ∷ xs) h)

-- What holds of every element holds of the last.
pub All-last? {ℓ κ} :
    {A : Type ℓ} (P : A → Type κ) (xs : List A) {x : A} → All P xs → last? xs ≡ some x → P x
All-last? P [] h e = absurd (cc)
All-last? P (y ∷ []) {x} h e = let same : y ≡ x = cc in subst P same h.0
All-last? P (y ∷ z ∷ xs) h e = All-last? P (z ∷ xs) h.1 e

module _ {ℓ} {A : Type ℓ} where
  pub get_elem?_of_lt : (xs : List A) (n : ℕ) → n < length xs → (x : A) × (get_elem? xs n ≡ some x)
  get_elem?_of_lt [] n h = elim h [ ]
  get_elem?_of_lt (x ∷ xs) zero h = (x, refl)
  get_elem?_of_lt (x ∷ xs) (suc n) h = get_elem?_of_lt xs n (omega arith)

  pub take-suc :
      (xs : List A) (n : ℕ) (x : A)
      → get_elem? xs n ≡ some x
      → take (suc n) xs ≡ take n xs ++ x ∷ []
  take-suc [] n x h = cc
  take-suc (y ∷ xs) zero x h = ground arith
  take-suc (y ∷ xs) (suc n) x h = ap (λ l. y ∷ l) (take-suc xs n x h)

  pub All-take {κ} : (P : A → Type κ) (n : ℕ) (xs : List A) → All P xs → All P (take n xs)
  All-take P zero xs h = tt
  All-take P (suc n) [] h = tt
  All-take P (suc n) (x ∷ xs) h = (h.0, All-take P n xs h.1)

  pub All-get_elem? {κ} :
      (P : A → Type κ) (xs : List A) (n : ℕ) {x : A} → All P xs → get_elem? xs n ≡ some x → P x
  All-get_elem? P [] n h e = absurd (cc)
  All-get_elem? P (y ∷ xs) zero {x} h e = let same : y ≡ x = cc in subst P same h.0
  All-get_elem? P (y ∷ xs) (suc n) h e = All-get_elem? P xs n h.1 e

  pub take-length-snoc : (xs : List A) (x : A) → take (length xs) (xs ++ x ∷ []) ≡ xs
  take-length-snoc [] x = refl
  take-length-snoc (y ∷ xs) x = ap (λ l. y ∷ l) (take-length-snoc xs x)

  pub get_elem?-map {κ} :
      {B : Type κ} (f : A → B) (xs : List A) (n : ℕ) {x : A}
      → get_elem? xs n ≡ some x
      → get_elem? (map f xs) n ≡ some (f x)
  get_elem?-map f [] n h = absurd (cc)
  get_elem?-map f (y ∷ xs) zero h = ground arith
  get_elem?-map f (y ∷ xs) (suc n) h = get_elem?-map f xs n h

  pub length-map {κ} : {B : Type κ} (xs : List A) (f : A → B) → length (map f xs) ≡ length xs
  length-map [] f = refl
  length-map (x ∷ xs) f = ap suc (length-map xs f)

  pub drop_last-take :
      (xs : List A) (n : ℕ) → n < length xs → drop_last (take (suc n) xs) ≡ take n xs
  drop_last-take xs n h =
      let (x, found) = get_elem?_of_lt xs n h in
      ap drop_last (take-suc xs n x found) ∙ drop_last-snoc (take n xs) x

pub get_elem?-set {ℓ} :
    {A : Type ℓ} (xs : List A) (i : ℕ) (v : A) {x : A}
    → get_elem? xs i ≡ some x
    → get_elem? (set xs i v) i ≡ some v
get_elem?-set [] i v e = cc
get_elem?-set (y ∷ xs) zero v e = refl
get_elem?-set (y ∷ xs) (suc i) v e = get_elem?-set xs i v e
