-- ===== src/Selection/Counts.antt =====
-- How often a runbook is selected, compared with how often it was loaded.
use runn.Common.{
  ℕ, zero, suc, ◌≤◌, ◌<◌, ◌≡◌, refl, sym, ap, ◌∙◌, subst, inl, inr, Bool, true, false, Option, none,
  some, List, [], ◌∷◌, if◌then◌else◌, ltb, leb, eqb, length, get_elem?, Bool-cases, arith,
  some-injective, ◌&&◌,
}
use runn.Errors.{Result, ok, err}
use runn.Bind.{panics, yields, attempt, ◌>>=◌}
use runn.Parse.Requests.{yields-bind, yields_injective}
use runn.Shards.{count, in_part, part_from, part_operators}
use runn.Selection.{
  Selector, Options, remove_at, copy_operators, sample_from, sample_operators, random_operators,
  copy_part, shuffle_part, shard_part, sample_part, random_part,
}

module _ {A : Type 0} (p : A → Bool) where
  count-remove_at :
      (n : List A) (i : ℕ) (o : A)
      → get_elem? n i ≡ some o
      → count p (o ∷ remove_at i n) ≡ count p n
  unfolding remove_at
  count-remove_at [] i o h = absurd (cc)
  count-remove_at (x ∷ n) zero o h = ap (λ o. count p (o ∷ n)) (sym (some-injective h))
  count-remove_at (x ∷ n) (suc i) o h = let rest = count-remove_at n i o h in ground (arith, rest)

  count-part_from : (n i ii : ℕ) (l : List A) → count p (part_from n i ii l) ≤ count p l
  unfolding part_from
  count-part_from n i ii [] = omega arith
  count-part_from n i ii (o ∷ l) =
      let rest = count-part_from n i (suc ii) l in
      elim (Bool-cases (in_part n i ii)) [
        | inl here ↦ rw here (ground (arith, rest))
        | inr other ↦ rw other (ground (arith, rest))
      ]

  module _ (s : Selector A) where
    count-sample_from :
        (num i : ℕ) (n l : List A)
        → sample_from s num i n ≡ yields l
        → (count p l ≤ count p n) × (length l ≡ num)
    unfolding sample_from
    count-sample_from zero i n l h =
        subst (λ l. (count p l ≤ count p n) × (length l ≡ 0)) (yields_injective h)
          (omega arith, refl)
    count-sample_from (suc num) i n l h =
        by_draw (get_elem? n (s.draw i (length n))) refl
          (count-sample_from num (suc i) (remove_at (s.draw i (length n)) n)) h
      where
        by_draw :
            (x : Option A)
            → get_elem? n (s.draw i (length n)) ≡ x
            → ((l : List A)
                → sample_from s num (suc i) (remove_at (s.draw i (length n)) n) ≡ yields l
                → (count p l ≤ count p (remove_at (s.draw i (length n)) n)) × (length l ≡ num))
            → elim x [
              | none ↦ panics
              | some o ↦ sample_from s num (suc i) (remove_at (s.draw i (length n)) n) >>= λ rest.
                  yields (o ∷ rest)
            ]
              ≡ yields l
            → (count p l ≤ count p n) × (length l ≡ suc num)
        by_draw none e later h = absurd (cc)
        by_draw (some o) e later h =
            let (rest, sampled, same) = yields-bind _ _ l h in
            let (few, size) = later rest sampled in
            let all = count-remove_at n (s.draw i (length n)) o e in
            subst (λ l. (count p l ≤ count p n) × (length l ≡ suc num)) (yields_injective same)
              (ground (arith, few, all), ap (λ n. suc n) size)

    pub count-sample_operators :
        (num : ℕ) (ops l : List A)
        → sample_operators s ops num ≡ yields l
        → (count p l ≤ count p ops) × (length l ≤ num)
    unfolding sample_operators
    count-sample_operators num ops l h = by_size (leb (length ops) num) refl h
      where
        by_size :
            (b : Bool)
            → leb (length ops) num ≡ b
            → (if b then yields ops else sample_from s num 0 ops) ≡ yields l
            → (count p l ≤ count p ops) × (length l ≤ num)
        by_size true e h =
            subst (λ l. (count p l ≤ count p ops) × (length l ≤ num)) (yields_injective h)
              (omega arith, ground arith)
        by_size false e h =
            let (few, size) = count-sample_from num 0 ops l h in (few, omega (arith, size))

    pub count-copy_operators :
        ((o c : A) → s.copied o ≡ ok c → p c ≡ p o)
        → (ops l : List A) → copy_operators s ops ≡ yields l
        → count p l ≡ count p ops
    unfolding copy_operators
    count-copy_operators keeps [] l h = ap (count p) (sym (yields_injective h))
    count-copy_operators keeps (o ∷ ops) l h =
        let (c, made, h₁) = yields-bind (attempt (s.copied o)) _ l h in
        let (rest, copies, same) = yields-bind (copy_operators s ops) _ l h₁ in
        let later = count-copy_operators keeps ops rest copies in
        ap (count p) (sym (yields_injective same))
        ∙ (ap (λ b. if b then suc (count p rest) else count p rest)
              (keeps o c (attempted (s.copied o) c made))
            ∙ ap (λ n. if p o then suc n else n) later)
      where
        attempted : (x : Result A) (c : A) → attempt x ≡ yields c → x ≡ ok c
        attempted (ok a) c h = ap (λ a. ok a) (yields_injective h)
        attempted (err e) c h = absurd (cc)

    module _ (q : Options) where
      pub count-copy_part :
          ((o c : A) → s.copied o ≡ ok c → p c ≡ p o)
          → (ops l : List A) → copy_part s q ops ≡ yields l
          → count p l ≡ count p ops
      count-copy_part keeps ops l h = by_test (ltb 0 q.run_count && eqb q.random 0) h
        where
          by_test :
              (b : Bool)
              → (if b then copy_operators s ops else yields ops) ≡ yields l
              → count p l ≡ count p ops
          by_test true h = count-copy_operators keeps ops l h
          by_test false h = ap (count p) (sym (yields_injective h))

      pub count-shuffle_part :
          ((l : List A) → count p (s.shuffled l) ≡ count p l)
          → (ops : List A) → count p (shuffle_part s q ops) ≡ count p ops
      count-shuffle_part keeps ops = by_test q.shuffle
        where
          by_test : (b : Bool) → count p (if b then s.shuffled ops else ops) ≡ count p ops
          by_test true = keeps ops
          by_test false = refl

      pub count-shard_part : (ops : List A) → count p (shard_part s q ops) ≤ count p ops
      unfolding part_operators
      count-shard_part ops = by_test (ltb 0 q.shard_n)
        where
          by_test :
              (b : Bool)
              → count p (if b then part_operators ops q.shard_n q.shard_index else ops)
                ≤ count p ops
          by_test true = count-part_from q.shard_n q.shard_index 0 ops
          by_test false = omega arith

      pub count-sample_part :
          (ops l : List A)
          → sample_part s q ops ≡ yields l
          → (count p l ≤ count p ops) × (0 < q.sample → length l ≤ q.sample)
      count-sample_part ops l h = by_test (ltb 0 q.sample) refl h
        where
          by_test :
              (b : Bool)
              → ltb 0 q.sample ≡ b
              → (if b then sample_operators s ops q.sample else yields ops) ≡ yields l
              → (count p l ≤ count p ops) × (0 < q.sample → length l ≤ q.sample)
          by_test true e h =
              let (few, size) = count-sample_operators q.sample ops l h in (few, λ _. size)
          by_test false e h =
              subst (λ l. (count p l ≤ count p ops) × (0 < q.sample → length l ≤ q.sample))
                (yields_injective h) (omega arith, λ positive. absurd (ground arith))

      pub random_part-none : (ops : List A) → q.random ≡ 0 → random_part s q ops ≡ yields ops
      random_part-none ops none_random =
          ap (λ n. if ltb 0 n then random_operators s n 0 ops else yields ops) none_random
