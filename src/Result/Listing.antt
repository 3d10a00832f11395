-- ===== src/Result/Listing.antt =====
-- The slices of `failedRunbookPathsAndErrors` go together.
use runn.Common.{
  ℕ, ◌+◌, String, ◌≡◌, ◌≢◌, refl, sym, ap, ◌∙◌, Bool, true, false, Option, none, some, List, [],
  ◌∷◌, ◌++◌, map, arith, All, is_some, length-append, length-map,
}
use runn.Common.Int.{ℤ, pos, negsuc}
use runn.Errors.{Error}
use runn.Result.{
  RunResult, no_run, run_result, StepResult, no_step, step_result, StepResults, nil, cons,
}
use runn.Result.Failures.{
  Failures, no_failures, one_failure, join_failures, join_found, under, or_itself, in_included,
  failed_paths_and_errors, failed_steps, failed_step, IsComplete, AreComplete, HasResult, Listed,
}

abbrev pub path_of : RunResult → String
path_of no_run = ""
path_of (run_result id desc labels path skipped e steps store elapsed) = path

abbrev pub error_of : RunResult → Option Error
error_of no_run = none
error_of (run_result id desc labels path skipped e steps store elapsed) = e

abbrev pub is_filled {ℓ} : {A : Type ℓ} → List A → Bool
is_filled [] = false
is_filled (x ∷ l) = true

All-append :
    (P : List String → Type 0) (xs ys : List (List String)) → All P xs → All P ys → All P (xs ++ ys)
All-append P [] ys h k = k
All-append P (x ∷ xs) ys h k = (h.0, All-append P xs ys h.1 k)

All-rooted :
    (path : String) (l : List (List String))
    → All (λ (p : List String). (rest : List String) × (p ≡ path ∷ rest)) (map (λ p. path ∷ p) l)
All-rooted path [] = tt
All-rooted path (p ∷ l) = ((p, refl), All-rooted path l)

module _ (path : String) where
  Listed-join : (f g : Failures) → Listed path f → Listed path g → Listed path (join_failures f g)
  Listed-join f g h k = record {
    indexes = omega (
      arith,
      length-append f.indexes g.indexes,
      length-append f.paths g.paths,
      h.indexes,
      k.indexes,
    );
    errs =
        omega (arith, length-append f.errs g.errs, length-append f.paths g.paths, h.errs, k.errs);
    rooted = All-append _ f.paths g.paths h.rooted k.rooted;
  }

  Listed-under : (p : String) (f : Failures) → Listed p f → Listed path (under path f)
  Listed-under p f h = record {
    indexes = h.indexes ∙ sym (length-map f.paths (λ q. path ∷ q));
    errs = h.errs ∙ sym (length-map f.paths (λ q. path ∷ q));
    rooted = All-rooted path f.paths;
  }

  Listed-one : (i : ℤ) (e : Error) → Listed path (one_failure path i e)
  Listed-one i e = record { indexes = refl; errs = refl; rooted = (([], refl), tt) }

  Listed-none : Listed path no_failures
  Listed-none = record { indexes = refl; errs = refl; rooted = tt }

  by_paths :
      (e : Error) (f : Failures) (l : List (List String))
      → f.paths ≡ l
      → Listed path f
      → (g : Failures) × (elim l as (λ _. Option Failures) [
        | [] ↦ some (one_failure path (negsuc 0) e)
        | _ ↦ some f
      ]
          ≡ some g)
        × Listed path g
        × (is_filled g.paths ≡ true)
  by_paths e f [] k h = (one_failure path (negsuc 0) e, refl, Listed-one (negsuc 0) e, refl)
  by_paths e f (p ∷ l) k h = (f, refl, h, ap is_filled k)

  Listed-or_itself :
      (e : Error) (x : Option Failures) (f : Failures)
      → x ≡ some f
      → Listed path f
      → (g : Failures) × (or_itself path e x ≡ some g) × Listed path g × (is_filled g.paths ≡ true)
  Listed-or_itself e x f k h =
      let (g, found, listed, filled) = by_paths e f f.paths refl h in
      (g, ap (or_itself path e) k ∙ found, listed, filled)

  Listed-join_found :
      (x y : Option Failures) (f g : Failures)
      → x ≡ some f
      → y ≡ some g
      → Listed path f
      → Listed path g
      → (h : Failures) × (join_found x y ≡ some h) × Listed path h
  Listed-join_found x y f g k l h j = (
    join_failures f g,
    ap (λ x. join_found x y) k ∙ ap (join_found (some f)) l,
    Listed-join f g h j,
  )

-- What the function gives for a run that is there.
abbrev RunListed : RunResult → Type 0
RunListed r =
    (f : Failures) × (failed_paths_and_errors r ≡ some f)
    × Listed (path_of r) f
    × (is_filled f.paths ≡ is_some (error_of r))

unfoldable mutual
  unfolding failed_paths_and_errors failed_steps failed_step IsComplete AreComplete HasResult

  run-Listed : (r : RunResult) → r ≢ no_run → IsComplete r → RunListed r
  run-Listed no_run there c = absurd (there refl)
  run-Listed (run_result id desc labels path skipped none steps store elapsed) there c =
      (no_failures, refl, Listed-none path, refl)
  run-Listed (run_result id desc labels path skipped (some e) steps store elapsed) there c =
      let (f, found, h) = steps-Listed path 0 steps c in
      Listed-or_itself path e (failed_steps path 0 steps) f found h

  steps-Listed :
      (path : String) (i : ℕ) (steps : StepResults)
      → AreComplete steps
      → (f : Failures) × (failed_steps path i steps ≡ some f) × Listed path f
  steps-Listed path i nil c = (no_failures, refl, Listed-none path)
  steps-Listed path i (cons s steps) (c, d) =
      let (f, found, h) = step-Listed path i s c in
      let (g, also, k) = steps-Listed path (i + 1) steps d in
      Listed-join_found path (failed_step path i s) (failed_steps path (i + 1) steps) f g found also
        h k

  step-Listed :
      (path : String) (i : ℕ) (s : StepResult)
      → HasResult s
      → (f : Failures) × (failed_step path i s ≡ some f) × Listed path f
  step-Listed path i no_step c = absurd c
  step-Listed path i (step_result id key desc skipped none included elapsed) c =
      (no_failures, refl, Listed-none path)
  step-Listed path i (step_result id key desc skipped (some e) no_run elapsed) c =
      (one_failure path (pos i) e, refl, Listed-one path (pos i) e)
  step-Listed path i
        (step_result id key desc skipped (some e) (run_result a b c d f g h j k) elapsed) complete =
      let (l, found, listed, _) =
        run-Listed (run_result a b c d f g h j k) (λ e. absurd (cc)) complete in
      (under path l, ap (in_included path) found, Listed-under path d l listed)

-- For the result of a run in which, down to the included runs, each step has a result,
-- `failedRunbookPathsAndErrors` does not panic, its three slices have one length, each path starts at
-- the run's own runbook, and the slices are empty if and only if the run has no error.
pub failed_paths_and_errors-Listed :
    (r : RunResult)
    → r ≢ no_run
    → IsComplete r
    → (f : Failures) × (failed_paths_and_errors r ≡ some f)
      × Listed (path_of r) f
      × (is_filled f.paths ≡ is_some (error_of r))
failed_paths_and_errors-Listed r there complete = run-Listed r there complete
