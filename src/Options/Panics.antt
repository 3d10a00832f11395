-- ===== src/Options/Panics.antt =====
-- `DBRunnerWithOptions` has no test for nil, with which `applyOptions` calls each option first.
use mathlib.Core.List.{◌++◌}
use runn.Common.{String, ◌≡◌, refl, ap, Option, none, some, List, [], ◌∷◌}
use runn.RunnerConfig.{DbRunnerConfig, ConfigOption}
use runn.Book.{Book}
use runn.Book.Changes.{Changed, panics, fails, done}
use runn.Book.Loader.{Loader}
use runn.Scopes.{Scopes}
use runn.Options.{Target, BookOption}
use runn.Options.OtherClients.{db_runner_with_options}
use runn.Options.Applying.{
  call_with_nil, apply_options, no_book, apply_each, setup_builtin_functions, for_book,
}

module _ (opt : BookOption) (unguarded : (g : Scopes) → opt (no_book g) ≡ panics) where
  call_with_nil-panics :
      (before after : List BookOption) (g : Scopes)
      → call_with_nil (before ++ (opt ∷ after)) g ≡ none
  unfolding call_with_nil
  call_with_nil-panics [] after g =
      ap
        (λ r. elim r [
          | panics ↦ none
          | fails e t ↦ call_with_nil after t.scopes
          | done t ↦ call_with_nil after t.scopes
        ])
        (unguarded g)
  call_with_nil-panics (first ∷ before) after g =
      by_reply (first (no_book g)) (call_with_nil-panics before after)
    where
      by_reply :
          (r : Changed Target)
          → ((g : Scopes) → call_with_nil (before ++ (opt ∷ after)) g ≡ none)
          → elim r as (λ _. Option Scopes) [
            | panics ↦ none
            | fails e t ↦ call_with_nil (before ++ (opt ∷ after)) t.scopes
            | done t ↦ call_with_nil (before ++ (opt ∷ after)) t.scopes
          ]
            ≡ none
      by_reply panics rest = refl
      by_reply (fails e t) rest = rest t.scopes
      by_reply (done t) rest = rest t.scopes

-- With `DBRunnerWithOptions` among the options, wherever it stands and whatever its arguments are,
-- `applyOptions` panics, for any book and any scopes.
pub apply_options-panics :
    (w : Loader) (name dsn : String) (opts : List (ConfigOption DbRunnerConfig))
    (before after : List BookOption) (bk : Book) (g : Scopes)
    → apply_options (before ++ (db_runner_with_options w name dsn opts ∷ after)) bk g ≡ panics
unfolding apply_options db_runner_with_options
apply_options-panics w name dsn opts before after bk g =
    let all = before ++ (db_runner_with_options w name dsn opts ∷ after) in
    ap
      (λ s. elim s [
        | none ↦ panics
        | some g' ↦ apply_each (setup_builtin_functions all) (for_book bk g')
      ])
      (call_with_nil-panics (db_runner_with_options w name dsn opts) (λ h. refl) before after g)
