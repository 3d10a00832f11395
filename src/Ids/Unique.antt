-- ===== src/Ids/Unique.antt =====
-- The IDs of `generateIDsUsingPath` differ, and are the shortest that do.
use runn.Common.{
  ℕ, zero, suc, ◌+◌, ◌≤◌, ◌<◌, String, ◌≡◌, ◌≢◌, refl, sym, ap, ◌∙◌, subst, ◌⊎◌, inl, inr, Bool,
  true, false, List, [], ◌∷◌, if◌then◌else◌, eqb, length, Bool-cases, arith,
}
use runn.Errors.{Error, message, Result, ok, err}
use runn.Store.View.{Distinct}
use runn.Ids.Repeats.{Repeats, distinct_or_Repeats}
use runn.Ids.{
  IdTools, from_paths, reverse_path, ids_from, ids_at, try_rounds, longest, reversed_paths,
  generate_ids_using_path,
}

module _ (t : IdTools) where
  length-ids_from : (i k : ℕ) (rps : List (List String)) → length (ids_from t i k rps) ≡ length rps
  unfolding ids_from
  length-ids_from i k [] = refl
  length-ids_from i k (rp ∷ rps) = ap (λ n. suc n) (length-ids_from i (suc k) rps)

  ids_of : {l m : List String} → ok l ≡ ok m → l ≡ m
  ids_of h = cc

  error_of : {e x : Error} → ◌≡◌ {A = Result (List String)} (err e) (err x) → e ≡ x
  error_of h = cc

  paths_of : {l m : List (List String)} → ok l ≡ ok m → l ≡ m
  paths_of h = cc

  length-reversed_paths :
      (paths : List String) (rps : List (List String))
      → reversed_paths t paths ≡ ok rps
      → length rps ≡ length paths
  unfolding reversed_paths
  length-reversed_paths [] rps h = ap length (sym (paths_of h))
  length-reversed_paths (p ∷ paths) rps h =
      by_path (t.abs p) (reversed_paths t paths) (length-reversed_paths paths) h
    where
      by_path :
          (x : Result String) (y : Result (List (List String)))
          → ((rps : List (List String)) → y ≡ ok rps → length rps ≡ length paths)
          → elim x [
            | err e ↦ err e
            | ok q ↦ elim y [ err e ↦ err e | ok rps ↦ ok (reverse_path t q ∷ rps) ]
          ]
            ≡ ok rps
          → length rps ≡ suc (length paths)
      by_path (err e) y k h = absurd (cc)
      by_path (ok q) (err e) k h = absurd (cc)
      by_path (ok q) (ok others) k h =
          ap length (sym (paths_of h)) ∙ ap (λ n. suc n) (k others refl)

  -- The IDs of a round differ, by the count of `lo.Uniq`.
  abbrev Apart : ℕ → List (List String) → Type 0
  Apart i rps = length (t.uniq (ids_at t i rps)) ≡ length rps

  -- The result of the rounds from `i` on: the IDs of the first round whose IDs differ, or an error if
  -- there is none among those that are left.
  Tried : ℕ → ℕ → List (List String) → Result (List String) → Type 0
  Tried left i rps x =
      ((n : ℕ) × (i ≤ n)
        × (n < i + left)
        × (x ≡ ok (ids_at t n rps))
        × Apart n rps
        × ((m : ℕ) → i ≤ m → m < n → Apart m rps → ⊥))
      ⊎ ((x ≡ err (message "failed to generate ids"))
          × ((m : ℕ) → i ≤ m → m < i + left → Apart m rps → ⊥))

  later_than :
      (i m : ℕ) (rps : List (List String))
      → eqb (length (t.uniq (ids_at t i rps))) (length rps) ≡ false
      → i ≤ m
      → (suc i ≤ m → ⊥)
      → Apart m rps
      → ⊥
  later_than i m rps e a later c =
      let same : i ≡ m = elim (Bool-cases (eqb i m)) [
        | inl this ↦ ground arith
        | inr other ↦ absurd (later (ground arith))
      ] in
      let here = subst (λ m. Apart m rps) (sym same) c in ground arith

  try_rounds-Tried :
      (left i : ℕ) (rps : List (List String)) → Tried left i rps (try_rounds t left i rps)
  unfolding try_rounds Tried
  try_rounds-Tried zero i rps = inr (refl, λ m a b c. absurd (omega arith))
  try_rounds-Tried (suc left) i rps =
      by_count (eqb (length (t.uniq (ids_at t i rps))) (length rps)) refl
        (try_rounds-Tried left (suc i) rps)
    where
      by_count :
          (b : Bool)
          → eqb (length (t.uniq (ids_at t i rps))) (length rps) ≡ b
          → Tried left (suc i) rps (try_rounds t left (suc i) rps)
          → Tried
              (suc left)
              i
              rps
              (if b then ok (ids_at t i rps) else try_rounds t left (suc i) rps)
      by_count true e later =
          inl (i, omega arith, omega arith, refl, ground arith, λ m a b c. absurd (omega arith))
      by_count false e (inl (n, least, bound, same, apart, first)) = inl (
        n,
        omega arith,
        omega arith,
        same,
        apart,
        λ m a b c. later_than i m rps e a (λ d. first m d b c) c,
      )
      by_count false e (inr (failed, none_apart)) =
          inr (failed, λ m a b c. later_than i m rps e a (λ d. none_apart m d (omega arith) c) c)

  -- What the IDs of `generateIDsUsingPath` are, for some runbooks.
  Generated : List String → Result (List String) → Type 0
  Generated paths x =
      ((e : Error) × (reversed_paths t paths ≡ err e) × (x ≡ err e))
      ⊎ ((rps : List (List String)) × (reversed_paths t paths ≡ ok rps)
          × Tried (longest rps) 1 rps x)

  generate-Generated :
      (p : String) (paths : List String)
      → Generated (p ∷ paths) (generate_ids_using_path t (p ∷ paths))
  unfolding generate_ids_using_path Generated
  generate-Generated p paths = by_paths (reversed_paths t (p ∷ paths)) refl
    where
      by_paths :
          (x : Result (List (List String)))
          → reversed_paths t (p ∷ paths) ≡ x
          → Generated (p ∷ paths) (from_paths t x)
      by_paths (err e) h = inl (e, h, refl)
      by_paths (ok rps) h = inr (rps, h, try_rounds-Tried (longest rps) 1 rps)

  -- If `lo.Uniq` keeps the length of no list with a repetition, the IDs that
  -- `generateIDsUsingPath` returns are as many as the runbooks, and no two are the same. They are those of
  -- a round `n`, made of the last `n` parts of each path, and in no round before do they differ, so that
  -- the IDs come from path ends that are no longer than they need to be.
  pub generate_ids_using_path-Distinct :
      ((l : List String) → length (t.uniq l) ≡ length l → Distinct l)
      → (p : String) (paths ids : List String) → generate_ids_using_path t (p ∷ paths) ≡ ok ids
      → (length ids ≡ suc (length paths))
        × Distinct ids
        × ((n : ℕ) × (rps : List (List String)) × (reversed_paths t (p ∷ paths) ≡ ok rps)
            × (ids ≡ ids_at t n rps)
            × (1 ≤ n)
            × (n ≤ longest rps)
            × ((m : ℕ) → 1 ≤ m → m < n → length (t.uniq (ids_at t m rps)) ≢ length rps))
  unfolding Generated Tried
  generate_ids_using_path-Distinct uniq p paths ids h = elim (generate-Generated p paths) [
    | inl (e, _, failed) ↦ absurd (cc)
    | inr (rps, read, inr (failed, _)) ↦ absurd (cc)
    | inr (rps, read, inl (n, least, bound, same, apart, first)) ↦
        let are : ids_at t n rps ≡ ids = ids_of (sym same ∙ h) in
        let size = length-ids_from n 0 rps in
        (
          ap length (sym are) ∙ (size ∙ length-reversed_paths (p ∷ paths) rps read),
          subst Distinct are (uniq (ids_at t n rps) (apart ∙ sym size)),
          (n, rps, read, sym are, least, omega arith, first),
        )
  ]

  -- If `lo.Uniq` keeps the length of every list without a repetition, `generateIDsUsingPath` fails only
  -- with the error of a path that has no absolute form, or if in each round, that of the whole paths
  -- among them, two runbooks get the same ID.
  pub generate_ids_using_path-fails :
      ((l : List String) → Distinct l → length (t.uniq l) ≡ length l)
      → (p : String) (paths : List String) (e : Error)
      → generate_ids_using_path t (p ∷ paths) ≡ err e
      → (reversed_paths t (p ∷ paths) ≡ err e)
        ⊎ ((rps : List (List String)) × (reversed_paths t (p ∷ paths) ≡ ok rps)
            × ((m : ℕ) → 1 ≤ m → m ≤ longest rps → Repeats (ids_at t m rps)))
  unfolding Generated Tried
  generate_ids_using_path-fails uniq p paths e h = elim (generate-Generated p paths) [
    | inl (x, read, failed) ↦ inl (read ∙ ap (λ e. err e) (error_of (sym failed ∙ h)))
    | inr (rps, read, inl (n, least, bound, same, apart, first)) ↦ absurd (cc)
    | inr (rps, read, inr (failed, none_apart)) ↦ inr (
      rps,
      read,
      λ m a b. elim (distinct_or_Repeats (ids_at t m rps)) [
        | inl distinct ↦ absurd (
            none_apart m a (omega arith) (uniq (ids_at t m rps) distinct ∙ length-ids_from m 0 rps))
        | inr repeats ↦ repeats
      ],
    )
  ]
