-- ===== src/Options/Selecting.antt =====
-- The options of option.go that say which runbooks are run, and in which order.
use mathlib.Core.List.{◌++◌}
use runn.Common.{
  ℕ, zero, suc, String, Bool, true, false, some, List, [], ◌∷◌, leb, ◌==◌, if◌then◌else◌,
}
use runn.Common.Int.{ℤ, pos, negsuc}
use runn.Common.Strings.{split}
use runn.Errors.{message, Result}
use runn.Book.Changes.{fails, done, with_ok}
use runn.Scopes.{trim_space}
use runn.Options.{BookOption, on_book, set_book}

-- `RunMatch`, with `regexp.Compile`.
unfoldable pub run_match : (String → Result ℕ) → String → BookOption
unfolding on_book
run_match compile m =
    on_book λ bk. with_ok bk (compile m) λ re. done (record bk { run_match = some re })

-- The parts between commas and line breaks, without the empty ones.
unfoldable pub trimmed : List String → List String
unfolding split
trimmed [] = []
trimmed (s ∷ l) = let rest = trimmed l in if s == "" then rest else trim_space s ∷ rest

unfoldable pub lines_of : List String → List String
unfolding trimmed split
lines_of [] = []
lines_of (s ∷ l) = trimmed (split "\n" s) ++ lines_of l

unfoldable pub names_of : List String → List String
unfolding lines_of split
names_of [] = []
names_of (s ∷ l) = lines_of (split "," s) ++ names_of l

unfoldable pub run_id : List String → BookOption
unfolding on_book names_of
run_id ids = set_book λ bk. record bk { run_ids = bk.run_ids ++ names_of ids }

unfoldable pub run_label : List String → BookOption
unfolding on_book names_of
run_label labels = set_book λ bk. record bk { run_labels = bk.run_labels ++ names_of labels }

-- `n <= 0`
abbrev positive : ℤ → Bool
positive (pos zero) = false
positive (pos (suc n)) = true
positive (negsuc n) = false

unfoldable pub run_sample : ℤ → BookOption
unfolding on_book
run_sample n = on_book λ bk.
    if positive n
    then done (record bk { run_sample = n })
    else fails (message "sample must be greater than 0") bk

-- `i >= n`
abbrev at_least : ℤ → ℤ → Bool
at_least (pos i) (pos n) = leb n i
at_least (pos i) (negsuc n) = true
at_least (negsuc i) (pos n) = false
at_least (negsuc i) (negsuc n) = leb i n

abbrev negative : ℤ → Bool
negative (pos n) = false
negative (negsuc n) = true

unfoldable pub run_shard : ℤ → ℤ → BookOption
unfolding on_book
run_shard n i = on_book λ bk.
    if positive n
    then (if negative i
        then fails (message "the index of divisions is greater than or equal to 0") bk
        else if at_least i n
        then fails (message "the index of divisions is less than the number of distributions") bk
        else done (record bk { run_shard_index = i; run_shard_n = n }))
    else fails (message "the number of divisions is greater than 0") bk

unfoldable pub run_shuffle : Bool → ℤ → BookOption
unfolding on_book
run_shuffle enable seed = set_book λ bk. record bk { run_shuffle = enable; run_shuffle_seed = seed }

unfoldable pub run_concurrent : Bool → ℤ → BookOption
unfolding on_book
run_concurrent enable most =
    set_book λ bk. record bk { run_concurrent = enable; run_concurrent_max = most }

unfoldable pub run_random : ℤ → BookOption
unfolding on_book
run_random n = on_book λ bk.
    if positive n
    then done (record bk { run_random = n })
    else fails (message "ramdom must be greater than 0") bk
