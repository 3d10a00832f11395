-- ===== src/Tests/OfResults.antt =====
-- The theorems on results and shards, applied to small ones.
use runn.Common.{ℕ, ◌≡◌, Bool, true, false, none, some, [], ◌∷◌, length, arith, ltb, is_some}
use runn.Errors.{message}
use runn.Value.{end}
use runn.Result.{RunResult, no_run, run_result, step_result, nil, cons}
use runn.Result.Failures.{
  Failures, failed_paths_and_errors, IsComplete, AreComplete, HasResult, Listed,
}
use runn.Result.Listing.{is_filled, path_of, error_of, failed_paths_and_errors-Listed}
use runn.Result.Simplified.{Simplified, simplify, has_failure, Counts, simplify-Counts}
use runn.Shards.{count, count_shards, count_shards-count}

abbrev inner : RunResult
inner =
    run_result "b2" "" [] "inner.yml" false (some (message "refused"))
      (cons (step_result "b2?step=0" "ask" "" false (some (message "refused")) no_run 0) nil) end 0

-- A run whose second step includes a run that has failed.
abbrev outer : RunResult
outer =
    run_result "a1" "" [] "outer.yml" false (some (message "refused"))
      (cons (step_result "a1?step=0" "one" "" false none no_run 0)
        (cons (step_result "a1?step=1" "two" "" false (some (message "refused")) inner 0) nil))
      end 0

abbrev quiet : RunResult
quiet = run_result "c3" "" [] "quiet.yml" true none nil end 0

outer-IsComplete : IsComplete outer
unfolding IsComplete AreComplete HasResult
outer-IsComplete = (tt, ((tt, tt), tt))

quiet-IsComplete : IsComplete quiet
unfolding IsComplete AreComplete
quiet-IsComplete = tt

failed_paths_and_errors-Listed_example :
    (f : Failures) × (failed_paths_and_errors outer ≡ some f)
    × Listed (path_of outer) f
    × (is_filled f.paths ≡ is_some (error_of outer))
failed_paths_and_errors-Listed_example =
    failed_paths_and_errors-Listed outer (λ e. absurd (cc)) outer-IsComplete

simplify-Counts_example :
    (s : Simplified) × (failing : Bool) × (simplify 2 (outer ∷ quiet ∷ []) ≡ some s)
    × (has_failure (outer ∷ quiet ∷ []) ≡ some failing)
    × Counts 2 (length (outer ∷ quiet ∷ [])) failing s
simplify-Counts_example =
    simplify-Counts 2 (outer ∷ quiet ∷ [])
      (((λ e. absurd (cc)), outer-IsComplete), (((λ e. absurd (cc)), quiet-IsComplete), tt))

abbrev is_small : ℕ → Bool
is_small n = ltb n 13

count_shards-count_example :
    count_shards is_small 3 3 (11 ∷ 12 ∷ 13 ∷ 14 ∷ []) ≡ count is_small (11 ∷ 12 ∷ 13 ∷ 14 ∷ [])
count_shards-count_example = count_shards-count is_small (11 ∷ 12 ∷ 13 ∷ 14 ∷ []) 3 (omega arith)
