-- ===== src/Errors.antt =====
-- The errors that a run produces, by their shape: `errors.New`, the wrapping by `fmt.Errorf` with
-- `%w`, `multierr.Append`, and the error types of errors.go, include.go and test.go. Texts that
-- only name a runbook or a step are left out of a wrapping.
use runn.Common.{ℕ, String, Bool, true, false, Option, none, some}

pub data Error : Type 0 where
  step_skipped : Error
  failed_to_record : Error
  not_allowed_to_run : Error
  message : String → Error
  -- the condition and its tree
  cond_false : String → String → Error
  not_true : String → String → Error
  invalid_runner : ℕ → Error
  -- "<what> failed on <step i>: %w"
  failed_on : String → ℕ → Error → Error
  -- "<what>: %w"
  wrapped : String → Error → Error
  -- "loop[%d]: %w"
  in_round : ℕ → Error → Error
  both : Error → Error → Error
  before_func after_func included_run : Error → Error

-- `errors.Is(errStepSkiped, err)`: the first argument wraps nothing, so the test is whether `err` is
-- that very error. An error that wraps it does not pass.
abbrev pub is_skip : Option Error → Bool
is_skip (some step_skipped) = true
is_skip (some (wrapped w e)) = false
is_skip _ = false

-- `multierr.Append(left, right)` with a right side that is not nil.
abbrev pub append_error : Option Error → Error → Error
append_error none e = e
append_error (some l) e = both l e

-- What an expression, or any other fallible call, returns.
pub data Result {ℓ} (A : Type ℓ) : Type ℓ where
  ok : A → Result A
  err : Error → Result A
