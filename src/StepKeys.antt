-- ===== src/StepKeys.antt =====
-- `validateRunnerKey` and `validateStepKeys` of book.go: which keys a runner and a step may have.
pub mod Single
use Prim.Native.String.{◌++◌}
use runn.Common.{
  ℕ, suc, ◌+◌, String, Bool, true, false, ◌||◌, Option, none, some, List, [], ◌∷◌, ◌==◌,
  if◌then◌else◌, ltb, eqb,
}
use runn.Value.{Value, Fields, end, field}
use runn.Errors.{Error, message}
use runn.CdpFunctions.{contains}
use runn.Parse.Command.{size}

unfoldable pub validate_runner_key : String → Option Error
validate_runner_key k =
    if k == "include" || k == "test" || k == "dump" || k == "exec" || k == "bind"
    then some (message ("runner name " ++ (k ++ " is reserved for built-in runner")))
    else if k == "if" || k == "desc" || k == "loop"
    then some (message ("runner name " ++ (k ++ " is reserved for built-in section")))
    else none

-- The keys that may stand beside a runner.
abbrev pub section_keys : List String
section_keys = "if" ∷ "desc" ∷ "loop" ∷ "test" ∷ "dump" ∷ "bind" ∷ []

-- The loop that counts the other keys.
unfoldable pub custom : Fields → ℕ
custom end = 0
custom (field k v s) = let rest = custom s in if contains section_keys k then rest else suc rest

unfoldable pub validate_step_keys : Fields → Option Error
unfolding custom
validate_step_keys s =
    if eqb (size s) 0
    then some (message "step must specify at least one runner")
    else if ltb 1 (custom s)
    then some (message "runners that cannot be running at the same time are specified")
    else none
