-- ===== src/Operator/Rounds.antt =====
-- The rounds of `runLoop`, as a relation.
use runn.Common.{
  ℕ, suc, ◌+◌, ◌≤◌, String, ◌==◌, ◌≡◌, ◌⊎◌, Bool, true, false, not, ◌&&◌, ◌||◌, Option, some,
  is_some, arith,
}
use runn.Errors.{Error, ok, err}
use runn.Operator.{Loop, Runbook, Run, World}
use runn.Operator.Exec.{Returned}
use runn.Operator.Internal.{run_internal, clear_run}
use runn.Operator.Conclusion.{Concluded}
use runn.Operator.Runs.{round_outcome, check_run_until}

module _ (b : Runbook) (w : World) (l : Loop) where
  -- The round with index `j`: the steps are run, and leave what a run leaves.
  pub record Round (j : ℕ) (r : Run) (e : Option Error) (r' : Run) : Type 0 where
    pub ready : w.continues r j ≡ true
    pub made : run_internal w b (record r { loop_index = some j }) ≡ some (e, r')
    pub concluded : Concluded b w (clear_run w b (record r { loop_index = some j })) e r'

  -- The rounds from the index `j` on, of which `left` may be made and `n` are: whether they succeed,
  -- and the run that they leave.
  pub data Rounds : ℕ → ℕ → ℕ → Run → Bool → Run → Type 0 where
    -- No round is left, or the back-off ends the loop.
    ends :
        {left j : ℕ} {r : Run}
        → (left ≡ 0) ⊎ (w.continues r j ≡ false)
        → Rounds left j 0 r (l.until == "") r
    -- Without `until:` each round has to succeed.
    plain :
        {left j n : ℕ} {r r' r'' : Run} {e : Option Error} {v : Bool}
        → (l.until == "") ≡ true
        → Round j r e r'
        → Rounds left (j + 1) n r' v r''
        → Rounds (suc left) j (suc n) r (not (is_some e) && v) r''
    -- With `until:` the condition after the round decides, whether the round has failed or not.
    again :
        {left j n : ℕ} {r r' r'' : Run} {e : Option Error} {v : Bool} {bt : String}
        → (l.until == "") ≡ false
        → Round j r e r'
        → check_run_until w b l (round_outcome w b e r') r' ≡ ok (bt, false)
        → Rounds left (j + 1) n r' v r''
        → Rounds (suc left) j (suc n) r v r''
    holds :
        {left j : ℕ} {r r' : Run} {e : Option Error} {bt : String}
        → (l.until == "") ≡ false
        → Round j r e r'
        → check_run_until w b l (round_outcome w b e r') r' ≡ ok (bt, true)
        → Rounds (suc left) j 1 r true r'
    breaks :
        {left j : ℕ} {r r' : Run} {e : Option Error} {x : Error}
        → (l.until == "") ≡ false
        → Round j r e r'
        → check_run_until w b l (round_outcome w b e r') r' ≡ err x
        → Rounds (suc left) j 1 r false r'

  -- Not more rounds are made than may be.
  pub Rounds-bound : {left j n : ℕ} {r r' : Run} {v : Bool} → Rounds left j n r v r' → n ≤ left
  Rounds-bound (ends s) = omega arith
  Rounds-bound (plain u d k) = let rest = Rounds-bound k in omega arith
  Rounds-bound (again u d c k) = let rest = Rounds-bound k in omega arith
  Rounds-bound (holds u d c) = omega arith
  Rounds-bound (breaks u d c) = omega arith

  -- The rest of the loop from a round on returns after `Rounds`, with an error if and only if they do
  -- not succeed or the rounds before have failed.
  unfoldable pub LoopsOn : Returned → ℕ → ℕ → Bool → Run → Type 0
  LoopsOn x left j failed r =
      (e : Option Error) × (r' : Run) × (n : ℕ) × (v : Bool) × (x ≡ some (e, r'))
      × Rounds left j n r v r'
      × (is_some e ≡ (failed || not v))
