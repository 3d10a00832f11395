-- ===== src/Book/Loading.antt =====
-- `loadBook` of book.go: the runbook of a path with its clients and its variables.
use runn.Common.{String, Option, none, some}
use runn.Value.{Fields}
use runn.Errors.{Error, wrapped, Result, ok, err}
use runn.Bind
use runn.Bind.{Attempt}
use runn.Book.{Book}
use runn.Book.Changes.{Changed, panics, fails, done, ◌>>=◌}
use runn.Book.Loader.{Loader}
use runn.Book.Parsing.{parse_runners, parse_vars}
use runn.RunbookFile.ToBook.{BookReader, parse_book}

-- `fetchPath`, the text of a file that is opened, and an error of closing it.
pub record Files : Type 0 where
  pub fetch_path : String → Result String
  pub open_file : String → Result String
  pub close : String → Option Error

module _ (w : Loader) (r : BookReader) (f : Files) where
  abbrev closed : String → Book → Changed Book
  closed fp bk = elim (f.close fp) [
    | some e ↦ fails (wrapped "failed to load runbook" e) bk
    | none ↦ done bk
  ]

  abbrev set_up : Option Fields → String → Book → Changed Book
  set_up store fp bk =
      parse_runners w store (record bk { path = fp }) >>= λ b. parse_vars w store b >>= closed fp

  abbrev failed : Error → Attempt Book
  failed e = Bind.Attempt.fails (wrapped "failed to load runbook" e)

  abbrev loaded : Changed Book → Attempt Book
  loaded panics = Bind.Attempt.panics
  loaded (fails e bk) = Bind.Attempt.fails e
  loaded (done bk) = Bind.Attempt.yields bk

  unfoldable pub load_book : String → Option Fields → Attempt Book
  unfolding parse_book parse_runners parse_vars
  load_book path store = elim (f.fetch_path path) [
    | err e ↦ failed e
    | ok fp ↦ elim (f.open_file fp) [
      | err e ↦ failed e
      | ok b ↦ elim (parse_book r b) [ err e ↦ failed e | ok bk ↦ loaded (set_up store fp bk) ]
    ]
  ]
