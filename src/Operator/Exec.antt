-- ===== src/Operator/Exec.antt =====
-- A Go function that changes the run and may return early or panic. The body of a function is an
-- `Exec`, with a `return` as a value of its own; `call` is the whole function, seen by its caller.
use runn.Common.{Option, none, some}
use runn.Errors.{Error}
use runn.Operator.{Run}

pub data Exec {ℓ} (A : Type ℓ) : Type ℓ where
  panics : Exec A
  -- `return err`
  returns : Option Error → Run → Exec A
  goes_on : A → Run → Exec A

infixl 5 ◌>>=◌ ◌>>◌
abbrev pub ◌>>=◌ {ℓ κ} :
    {A : Type ℓ} {B : Type κ} → (Run → Exec A) → (A → Run → Exec B) → Run → Exec B
◌>>=◌ m f r = elim (m r) [ panics ↦ panics | returns e r' ↦ returns e r' | goes_on a r' ↦ f a r' ]

abbrev pub ◌>>◌ {ℓ κ} : {A : Type ℓ} {B : Type κ} → (Run → Exec A) → (Run → Exec B) → Run → Exec B
m >> k = m >>= λ _. k

abbrev pub pure {ℓ} : {A : Type ℓ} → A → Run → Exec A
pure a r = goes_on a r

abbrev pub return_with {ℓ} : {A : Type ℓ} → Option Error → Run → Exec A
return_with e r = returns e r

-- An operation that may panic.
abbrev pub change : (Run → Option Run) → Run → Exec (Unit {0})
change f r = elim (f r) [ none ↦ panics | some r' ↦ goes_on tt r' ]

abbrev pub modify : (Run → Run) → Run → Exec (Unit {0})
modify f r = goes_on tt (f r)

-- What a function that returns an error has done: `none` is a panic. Its body ends in a `return`.
abbrev pub Returned : Type 0
Returned = Option (Option Error × Run)

abbrev pub function : Exec (Option Error) → Returned
function panics = none
function (returns e r) = some (e, r)
function (goes_on e r) = some (e, r)

-- `err := f()`
abbrev pub call : (Run → Returned) → Run → Exec (Option Error)
call f r = elim (f r) [ none ↦ panics | some (e, r') ↦ goes_on e r' ]
