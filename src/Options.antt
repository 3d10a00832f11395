-- ===== src/Options.antt =====
-- option.go: the options that fill in a book, and how they are applied. An option is called with a
-- book or with nil, and may set the scopes.
pub mod Layering
pub mod Settings
pub mod Selecting
pub mod Variables
pub mod HttpClients
pub mod OtherClients
pub mod Applying
pub mod Panics
use runn.Common.{Option, none, some, List, [], ◌∷◌}
use runn.Errors.{Error, message}
use runn.Bind
use runn.Bind.{Attempt}
use runn.Book.{Book}
use runn.Book.Changes.{Changed, panics, fails, done, ◌>>=◌, within}
use runn.Scopes.{Scopes}

pub record Target : Type 0 where
  pub book : Option Book
  pub scopes : Scopes

abbrev pub BookOption : Type 0
BookOption = Target → Changed Target

-- `ErrNilBook`
abbrev pub err_nil_book : Error
err_nil_book = message "runbook is nil"

-- `if bk == nil { return ErrNilBook }`, and the rest of the option.
unfoldable pub on_book : (Book → Changed Book) → BookOption
on_book f t = elim t.book [
  | none ↦ fails err_nil_book t
  | some bk ↦ within (λ b. record t { book = some b }) (f bk)
]

-- An option that only sets.
abbrev pub set_book : (Book → Book) → BookOption
set_book f = on_book λ bk. done (f bk)

-- A call without an effect on the book.
abbrev pub attempt_or_fail : {A : Type 0} → Book → Attempt A → (A → Changed Book) → Changed Book
attempt_or_fail bk Bind.Attempt.panics f = panics
attempt_or_fail bk (Bind.Attempt.fails e) f = fails e bk
attempt_or_fail bk (Bind.Attempt.yields a) f = f a
