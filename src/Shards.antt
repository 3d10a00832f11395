-- ===== src/Shards.antt =====
-- `partOperators` of operator.go: the runbooks that one of several shards runs.
use native.Mathlib.Nat.{mod-lt}
use runn.Common.{
  ℕ, zero, suc, ◌+◌, ◌%◌, ◌<◌, ◌≡◌, refl, ap, ◌∙◌, Bool, true, false, List, [], ◌∷◌, arith, eqb,
  ltb, if◌then◌else◌, Bool-cases, inl, inr,
}

-- `math.Mod(float64(ii), float64(n)) == float64(i)`; with `n` 0 the left side is NaN.
abbrev pub in_part : ℕ → ℕ → ℕ → Bool
in_part n i ii = if eqb n 0 then false else eqb (ii % n) i

module _ {ℓ} {A : Type ℓ} where
  -- The loop, from index `ii` on.
  unfoldable pub part_from : ℕ → ℕ → ℕ → List A → List A
  part_from n i ii [] = []
  part_from n i ii (o ∷ all) =
      let rest = part_from n i (suc ii) all in if in_part n i ii then o ∷ rest else rest

  unfoldable pub part_operators : List A → ℕ → ℕ → List A
  unfolding part_from
  part_operators ops n i = part_from n i 0 ops

  module _ (p : A → Bool) where
    abbrev pub count : List A → ℕ
    count [] = 0
    count (o ∷ l) = if p o then suc (count l) else count l

    -- How often `p` holds in the first `k` parts of a list whose indices start at `ii`.
    unfoldable count_parts : ℕ → ℕ → ℕ → List A → ℕ
    count_parts zero n ii l = 0
    count_parts (suc k) n ii l = count (part_from n k ii l) + count_parts k n ii l

    abbrev one : Bool → ℕ
    one true = 1
    one false = 0

    count_parts-step :
        (k n ii : ℕ) (o : A) (l : List A)
        → 0 < n
        → count_parts k n ii (o ∷ l)
          ≡ count_parts k n (suc ii) l + (if ltb (ii % n) k then one (p o) else 0)
    unfolding count_parts part_from
    count_parts-step zero n ii o l h = ground arith
    count_parts-step (suc k) n ii o l h =
        let rest = count_parts-step k n ii o l h in
        elim (Bool-cases (in_part n k ii)) [
          | inl here ↦ rw here (ground (arith, rest))
          | inr other ↦ rw other (ground (arith, rest))
        ]

    count_parts-none : (k n ii : ℕ) → count_parts k n ii [] ≡ 0
    unfolding count_parts part_from
    count_parts-none zero n ii = refl
    count_parts-none (suc k) n ii = omega (arith, count_parts-none k n ii)

    count_parts-count : (n ii : ℕ) (l : List A) → 0 < n → count_parts n n ii l ≡ count l
    count_parts-count n ii [] h = count_parts-none n n ii
    count_parts-count n ii (o ∷ l) h =
        let step = count_parts-step n n ii o l h in
        let rest = count_parts-count n (suc ii) l h in ground (arith, step, rest, mod-lt ii h)

    -- How often `p` holds in the first `k` of `n` shards together.
    unfoldable pub count_shards : ℕ → ℕ → List A → ℕ
    count_shards zero n ops = 0
    count_shards (suc k) n ops = count (part_operators ops n k) + count_shards k n ops

    count_shards-count_parts :
        (k n : ℕ) (ops : List A) → count_shards k n ops ≡ count_parts k n 0 ops
    unfolding count_shards count_parts part_operators
    count_shards-count_parts zero n ops = refl
    count_shards-count_parts (suc k) n ops =
        ap (λ x. count (part_from n k 0 ops) + x) (count_shards-count_parts k n ops)

    -- With at least one shard, whatever property of runbooks is counted, it holds in all shards
    -- together as often as among all runbooks: no runbook is left out or run twice.
    pub count_shards-count : (ops : List A) (n : ℕ) → 0 < n → count_shards n n ops ≡ count ops
    count_shards-count ops n h = count_shards-count_parts n n ops ∙ count_parts-count n 0 ops h
