-- ===== src/Ids/Repeats.antt =====
-- Repetitions among the IDs of id.go.
use runn.Common.{
  ℕ, zero, suc, ◌<◌, String, ◌≡◌, ◌≢◌, refl, ◌⊎◌, inl, inr, List, [], ◌∷◌, some, arith, eq_iff,
  ◌==◌, Bool-cases, All, get_elem?,
}
use runn.Store.View.{Distinct}

-- One text stands at two places of a list.
pub record Repeats (l : List String) : Type 0 where
  pub first : ℕ
  pub second : ℕ
  pub text : String
  pub apart : first < second
  pub at_first : get_elem? l first ≡ some text
  pub at_second : get_elem? l second ≡ some text

find : (k : String) (l : List String) → All (λ j. j ≢ k) l ⊎ ((n : ℕ) × (get_elem? l n ≡ some k))
find k [] = inl tt
find k (j ∷ l) = elim (Bool-cases (j == k)) [
  | inl same ↦ inr (0, ground (arith, eq_iff j k))
  | inr differs ↦ elim (find k l) [
    | inl fresh ↦ inl (λ e. ground (arith, eq_iff j k), fresh)
    | inr (n, found) ↦ inr (suc n, found)
  ]
]

pub distinct_or_Repeats : (l : List String) → Distinct l ⊎ Repeats l
distinct_or_Repeats [] = inl tt
distinct_or_Repeats (k ∷ l) = elim (find k l) [
  | inl fresh ↦ elim (distinct_or_Repeats l) [
    | inl distinct ↦ inl (fresh, distinct)
    | inr r ↦ inr (record {
      first = suc r.first;
      second = suc r.second;
      text = r.text;
      apart = omega (arith, r.apart);
      at_first = r.at_first;
      at_second = r.at_second;
    })
  ]
  | inr (n, found) ↦ inr (record {
    first = zero;
    second = suc n;
    text = k;
    apart = omega arith;
    at_first = refl;
    at_second = found;
  })
]
