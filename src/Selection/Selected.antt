-- ===== src/Selection/Selected.antt =====
-- `SelectedOperators` selects runbooks, none more often than it was loaded.
use runn.Common.{
  ℕ, zero, suc, ◌≤◌, ◌<◌, ◌≡◌, refl, sym, ap, ◌∙◌, subst, Bool, true, false, Option, none, some,
  List, [], ◌∷◌, if◌then◌else◌, ltb, leb, eqb, length, get_elem?_of_lt, arith, ◌&&◌,
}
use runn.Errors.{ok}
use runn.Bind.{Attempt, panics, yields, ◌>>=◌}
use runn.Shards.{count}
use runn.Selection.{
  Selector, Options, remove_at, copy_operators, sample_from, sample_operators, copy_part,
  shuffle_part, shard_part, sample_part, random_part, selected_operators,
}
use runn.Selection.Counts.{
  count-copy_part, count-shuffle_part, count-shard_part, count-sample_part, random_part-none,
}

module _ {A : Type 0} where
  length-remove_at : (n : List A) (i : ℕ) → i < length n → suc (length (remove_at i n)) ≡ length n
  unfolding remove_at
  length-remove_at [] i h = absurd (omega arith)
  length-remove_at (x ∷ n) zero h = refl
  length-remove_at (x ∷ n) (suc i) h = ap (λ n. suc n) (length-remove_at n i (omega arith))

  module _ (s : Selector A) where
    -- Draws stay below their bound.
    abbrev pub InRange : Type 0
    InRange = (i n : ℕ) → 0 < n → s.draw i n < n

    abbrev after_draw : ℕ → ℕ → List A → Option A → Attempt (List A)
    after_draw num i n x = elim x [
      | none ↦ panics
      | some o ↦ sample_from s num (suc i) (remove_at (s.draw i (length n)) n) >>= λ rest.
          yields (o ∷ rest)
    ]

    sample_from-yields :
        (num i : ℕ) (n : List A)
        → InRange
        → num ≤ length n
        → (l : List A) × (sample_from s num i n ≡ yields l)
    unfolding sample_from
    sample_from-yields zero i n draws h = ([], refl)
    sample_from-yields (suc num) i n draws h =
        let below = draws i (length n) (omega arith) in
        let (o, drawn) = get_elem?_of_lt n (s.draw i (length n)) below in
        let size = length-remove_at n (s.draw i (length n)) below in
        let (rest, sampled) =
          sample_from-yields num (suc i) (remove_at (s.draw i (length n)) n) draws (omega arith) in
        (
          o ∷ rest,
          ap (after_draw num i n) drawn ∙ ap (λ x. x >>= λ rest. yields (o ∷ rest)) sampled,
        )

    sample_operators-yields :
        (ops : List A) (num : ℕ) → InRange → (l : List A) × (sample_operators s ops num ≡ yields l)
    unfolding sample_operators
    sample_operators-yields ops num draws = by_size (leb (length ops) num) refl
      where
        by_size :
            (b : Bool)
            → leb (length ops) num ≡ b
            → (l : List A) × ((if b then yields ops else sample_from s num 0 ops) ≡ yields l)
        by_size true e = (ops, refl)
        by_size false e = sample_from-yields num 0 ops draws (ground arith)

    copy_operators-yields :
        ((o : A) → (c : A) × (s.copied o ≡ ok c))
        → (ops : List A) → (l : List A) × (copy_operators s ops ≡ yields l)
    unfolding copy_operators
    copy_operators-yields copies [] = ([], refl)
    copy_operators-yields copies (o ∷ ops) =
        let (c, made) = copies o in
        let (rest, later) = copy_operators-yields copies ops in (c ∷ rest, rw (made, later) refl)

    module _ (q : Options) where
      copy_part-yields :
          ((o : A) → (c : A) × (s.copied o ≡ ok c))
          → (ops : List A) → (l : List A) × (copy_part s q ops ≡ yields l)
      copy_part-yields copies ops = by_test (ltb 0 q.run_count && eqb q.random 0)
        where
          by_test :
              (b : Bool)
              → (l : List A) × ((if b then copy_operators s ops else yields ops) ≡ yields l)
          by_test true = copy_operators-yields copies ops
          by_test false = (ops, refl)

      sample_part-yields :
          (ops : List A) → InRange → (l : List A) × (sample_part s q ops ≡ yields l)
      sample_part-yields ops draws = by_test (ltb 0 q.sample)
        where
          by_test :
              (b : Bool)
              → (l : List A) × ((if b then sample_operators s ops q.sample else yields ops)
                  ≡ yields l)
          by_test true = sample_operators-yields ops q.sample draws
          by_test false = (ops, refl)

      copied_as :
          (p : A → Bool)
          → ((o : A) → (c : A) × (s.copied o ≡ ok c) × (p c ≡ p o))
          → (o c : A) → s.copied o ≡ ok c
          → p c ≡ p o
      copied_as p copies o c h =
          let (c', made, keeps) = copies o in
          let same : c' ≡ c = the_same (sym made ∙ h) in subst (λ c. p c ≡ p o) same keeps
        where
          the_same : {x y : A} → ok x ≡ ok y → x ≡ y
          the_same h = cc

      -- Without `random`, `SelectedOperators` succeeds if the runbooks can be copied and the draws stay
      -- below their bounds. Of a property that copies and shuffling keep, it selects no more runbooks that
      -- have it than were loaded, and with a sample, not more runbooks than its size.
      pub selected_operators-Counted :
          (p : A → Bool)
          → ((o : A) → (c : A) × (s.copied o ≡ ok c) × (p c ≡ p o))
          → ((l : List A) → count p (s.shuffled l) ≡ count p l)
          → InRange
          → (ops : List A) → q.random ≡ 0
          → (l : List A) × (selected_operators s q ops ≡ yields l)
            × (count p l ≤ count p ops)
            × (0 < q.sample → length l ≤ q.sample)
      unfolding selected_operators
      selected_operators-Counted p copies shuffles draws ops none_random =
          let (cs, copied) = copy_part-yields (λ o. let (c, made, _) = copies o in (c, made)) ops in
          let (l, sampled) = sample_part-yields (shard_part s q (shuffle_part s q cs)) draws in
          let (few, size) =
            count-sample_part p s q (shard_part s q (shuffle_part s q cs)) l sampled in
          let shards = count-shard_part p s q (shuffle_part s q cs) in
          let order = count-shuffle_part p s q shuffles cs in
          let same = count-copy_part p s q (copied_as p copies) ops cs copied in
          (
            l,
            ap
                  (λ x. x >>= λ cs.
                    sample_part s q (shard_part s q (shuffle_part s q cs)) >>= random_part s q)
                  copied
                ∙ (ap (λ x. x >>= random_part s q) sampled ∙ random_part-none p s q l none_random),
            omega (arith, few, shards, order, same),
            size,
          )
