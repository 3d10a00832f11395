-- ===== src/Options/Layering.antt =====
-- The options of option.go that load runbooks. The loading is `load_book` of Book/Loading, or any
-- other loader, by its path and store.
use runn.Common.{String, Option, none, some, List, eqb, length, if◌then◌else◌, map}
use runn.Value.{Fields}
use runn.Errors.{message, Result, ok, err}
use runn.Book.{Book}
use runn.Book.Changes.{fails, done}
use runn.Book.Merging.{merge, overlay_book, underlay_book}
use runn.Bind.{Attempt}
use runn.Options.{BookOption, on_book, attempt_or_fail}

-- `loadBook`
abbrev pub BookLoader : Type 0
BookLoader = String → Option Fields → Attempt Book

module _ (load_book : BookLoader) where
  -- `Book`
  unfoldable pub book : String → BookOption
  unfolding on_book merge
  book path =
      on_book λ bk. attempt_or_fail bk (load_book path none) λ loaded. done (merge bk loaded)

  -- `bookWithStore`
  unfoldable pub book_with_store : String → Fields → BookOption
  unfolding on_book merge
  book_with_store path store =
      on_book
        λ bk. attempt_or_fail bk (load_book path (some store)) λ loaded. done (merge bk loaded)

  unfoldable pub overlay : String → BookOption
  unfolding on_book overlay_book
  overlay path = on_book λ bk.
      if eqb (length bk.raw_steps) 0
      then fails (message "overlays are unusable without its base runbook") bk
      else attempt_or_fail bk (load_book path none) (overlay_book bk)

  unfoldable pub underlay : String → BookOption
  unfolding on_book underlay_book
  underlay path = on_book λ bk.
      if eqb (length bk.raw_steps) 0
      then fails (message "underlays are unusable without its base runbook") bk
      else attempt_or_fail bk (load_book path none) (underlay_book bk)

  -- `Books`, with `fetchPaths` of path.go.
  unfoldable pub books : (String → Result (List String)) → String → Result (List BookOption)
  unfolding book
  books fetch_paths pathp = elim (fetch_paths pathp) [
    | err e ↦ err e
    | ok paths ↦ ok (map book paths)
  ]
