-- ===== src/Operator/RunLoops.antt =====
-- `runLoop` returns, and what its rounds are.
use runn.Common.{ℕ, ◌≤◌, ◌==◌, ◌≡◌, ◌⊎◌, Bool, not, Option, none, some, is_some, length, All}
use runn.Common.Int.{ℤ, to_rounds}
use runn.Errors.{Error, Result, ok, err}
use runn.Store.Root.{to_map}
use runn.Store.View.{Distinct}
use runn.Eval.{eval_count}
use runn.Operator.{Loop, Runbook, Run, World}
use runn.Operator.Exec.{Returned}
use runn.Operator.Fits.{step_keys}
use runn.Operator.AllSteps.{Runs}
use runn.Operator.Runs.{run_rounds}
use runn.Operator.Rounds.{Round, Rounds}

module _ (b : Runbook) (w : World) (l : Loop) (distinct : Distinct (step_keys b))
    (all : All (Runs b w distinct) b.steps) where
  abbrev again_mode :
      (j : ℕ) (r : Run) (e : Option Error) (r' : Run)
      → Round b w l j r e r'
      → r'.store.use_map ≡ b.use_map
  again_mode j r e r' d = d.concluded.between.fits.mode

  abbrev again_size :
      (j : ℕ) (r : Run) (e : Option Error) (r' : Run)
      → Round b w l j r e r'
      → length r'.states ≡ length b.steps
  again_size j r e r' d = d.concluded.between.states

  -- What `runLoop` returns: the error of the count, or what its rounds come to.
  pub Looped : Run → Option Error → Run → Type 0
  Looped r e r' =
      ((x : Error) × (eval_count w.lang l.count (to_map w.env r.store) ≡ err x)
        × (e ≡ some x)
        × (r' ≡ r))
      ⊎ ((c : ℤ) × (n : ℕ) × (v : Bool) × (eval_count w.lang l.count (to_map w.env r.store) ≡ ok c)
          × Rounds b w l (to_rounds c) 0 n r v r'
          × (n ≤ to_rounds c)
          × (is_some e ≡ not v))

  abbrev after_count : Run → Result ℤ → Returned
  after_count r x = elim x [
    | err e ↦ some (some e, r)
    | ok c ↦ run_rounds w b l (to_rounds c) 0 (l.until == "") "" none r
  ]
