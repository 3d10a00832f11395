-- ===== src/Trail.antt =====
-- trail.go: where in a runbook a run stands, and the ID that this gives. The struct `Trail` has a
-- type and the fields that this type uses; each type is a constructor with those fields here, so a
-- pointer that the code reads is never nil.
use Prim.Native.String.{◌++◌}
use runn.Common.{ℕ, String, Option, List, [], ◌∷◌, ◌==◌, if◌then◌else◌}
use runn.Common.Text.{decimal, join}

pub data RunnerType : Type 0 where
  http db grpc cdp ssh exec include dump bind test : RunnerType

pub data Trail : Type 0 where
  -- description, ID and path
  runbook_trail : String → String → String → Trail
  -- description, index, key, type and key of the runner
  step_trail : String → ℕ → String → Option RunnerType → String → Trail
  before_func_trail after_func_trail : ℕ → Trail
  -- the round
  loop_trail : ℕ → Trail

abbrev pub Trails : Type 0
Trails = List Trail

-- The variable `id` of the loop: the first ID of a runbook that is not empty.
unfoldable pub root_id : String → Trails → String
root_id id [] = id
root_id id (runbook_trail desc runbook_id path ∷ trs) =
    root_id (if id == "" then runbook_id else id) trs
root_id id (_ ∷ trs) = root_id id trs

-- The variable `steps` of the loop, as indices.
unfoldable pub step_indices : Trails → List ℕ
step_indices [] = []
step_indices (step_trail desc index key type runner ∷ trs) = index ∷ step_indices trs
step_indices (_ ∷ trs) = step_indices trs

unfoldable step_texts : List ℕ → List String
step_texts [] = []
step_texts (i ∷ is) = ("step=" ++ decimal i) ∷ step_texts is

abbrev id_of : String → List ℕ → String
id_of id [] = id
id_of id (i ∷ is) = id ++ ("?" ++ join "&" (step_texts (i ∷ is)))

unfoldable pub runbook_id : Trails → String
unfolding root_id step_indices step_texts
runbook_id trs = id_of (root_id "" trs) (step_indices trs)
