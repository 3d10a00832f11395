-- ===== src/Operator/StepRounds.antt =====
-- The rounds of a step: what holds at one, and what a change of the round leaves alone.
use runn.Common.{ℕ, ◌<◌, ◌≡◌, ap, ◌∙◌, ◌⊎◌, inl, inr, true, Option, none, some, List, length, arith}
use runn.Common.Int.{ℤ, to_rounds}
use runn.Value.{Fields, end}
use runn.Errors.{Error, ok}
use runn.Store.View.{view}
use runn.Store.Root.{to_map}
use runn.Eval.{eval_count}
use runn.Operator.{Loop, Step, Runbook, Run, World}
use runn.Operator.Exec.{Returned}
use runn.Operator.RunStep.{set_round}
use runn.Operator.Fits.{Fits, Fits-loop_index, view-loop_index}
use runn.Operator.Frame.{
  Moved, Moved-trans, Moved-store, Moved-set_state, IsClear, store-set_state, state-set_state, Open,
  Full,
}

-- Before the step's first record.
pub record Begun (b : Runbook) (earlier : List Fields) (r : Run) : Type 0 where
  pub fits : Fits b r.store
  pub room : length earlier < length b.steps
  pub seen : view r.store ≡ earlier

-- A loop of the step makes at least one round: its count is positive, and the context is not done.
abbrev pub Loops : World → Step → Type 0
Loops w s =
    (l : Loop)
    → s.loop ≡ some l
    → (r : Run)
    → (w.continues r 0 ≡ true)
      × ((c : ℤ) → eval_count w.lang l.count (to_map w.env r.store) ≡ ok c → 0 < to_rounds c)

module _ (b : Runbook) (i : ℕ) (earlier : List Fields) where
  -- The records at round `j` of the step.
  abbrev pub AtRound : ℕ → Run → Type 0
  AtRound j r = ((j ≡ 0) × Begun b earlier r) ⊎ ((0 < j) × Full b earlier r)

  abbrev pub Ends : Option Error → Run → Type 0
  Ends none r = Full b earlier r
  Ends (some e) r = Begun b earlier r ⊎ Full b earlier r

  -- What a step, or a part of it, has done when it returns.
  pub record Settled (start : Run) (e : Option Error) (r : Run) : Type 0 where
    pub moved : Moved i start r
    pub clear : IsClear i r
    pub records : Ends e r

  pub Full-same :
      (r r' : Run)
      → Fits b r'.store
      → view r'.store ≡ view r.store
      → Full b earlier r
      → Full b earlier r'
  Full-same r r' f e g = record { fits = f; room = g.room; fresh = g.fresh; seen = e ∙ g.seen }

  pub Begun-same :
      (r r' : Run)
      → Fits b r'.store
      → view r'.store ≡ view r.store
      → Begun b earlier r
      → Begun b earlier r'
  Begun-same r r' f e g = record { fits = f; room = g.room; seen = e ∙ g.seen }

  pub Ends-same :
      (e : Option Error) (r r' : Run)
      → Fits b r'.store
      → view r'.store ≡ view r.store
      → Ends e r
      → Ends e r'
  Ends-same none r r' f v g = Full-same r r' f v g
  Ends-same (some e) r r' f v (inl g) = inl (Begun-same r r' f v g)
  Ends-same (some e) r r' f v (inr g) = inr (Full-same r r' f v g)

  pub Fits-at_end : (e : Option Error) (r : Run) → Ends e r → Fits b r.store
  Fits-at_end none r g = g.fits
  Fits-at_end (some e) r (inl g) = g.fits
  Fits-at_end (some e) r (inr g) = g.fits

  module _ (w : World) (j : Option ℕ) (r : Run) where
    pub store-set_round : (set_round w b i j r).store ≡ record r.store { loop_index = j }
    unfolding set_round
    store-set_round =
        store-set_state i (λ st. record st { loop_index = j })
          (record r { store = record r.store { loop_index = j } })

    pub Fits-set_round : Fits b r.store → Fits b (set_round w b i j r).store
    Fits-set_round f = rw store-set_round (Fits-loop_index b r.store f j)

    pub view-set_round : view (set_round w b i j r).store ≡ view r.store
    view-set_round = rw store-set_round (view-loop_index r.store j)

    pub loop_index-set_round : (set_round w b i j r).store.loop_index ≡ j
    loop_index-set_round = rw store-set_round

    pub Moved-set_round : Moved i r (set_round w b i j r)
    unfolding set_round
    Moved-set_round = Moved-trans i (Moved-store i r (record r.store { loop_index = j })) (
        Moved-set_state i (λ st. record st { loop_index = j })
          (record r { store = record r.store { loop_index = j } }))

    pub IsClear-set_round : IsClear i r → IsClear i (set_round w b i j r)
    unfolding set_round
    IsClear-set_round clear st' k =
        let (st, was, same) =
          state-set_state i (λ st. record st { loop_index = j })
            (record r { store = record r.store { loop_index = j } }) st' k in
        ap (λ s. s.result) same ∙ clear st was

  -- At the start of a round the records are as `stepFn` wants them.
  pub Open-round :
      (w : World) (j : ℕ) (r : Run) → AtRound j r → Open b earlier (set_round w b i (some j) r)
  Open-round w j r (inl (first, g)) = record {
    fits = Fits-set_round w (some j) r g.fits;
    room = g.room;
    stale = end;
    seen = inl (view-set_round w (some j) r ∙ g.seen, rw (loop_index-set_round, first));
  }
  Open-round w j r (inr (later, g)) = record {
    fits = Fits-set_round w (some j) r g.fits;
    room = g.room;
    stale = g.fresh;
    seen = inr (view-set_round w (some j) r ∙ g.seen, rw loop_index-set_round (ground arith));
  }

  -- An error of `stepFn` in a round.
  pub failed_round :
      (r' : Run) → Open b earlier r' ⊎ Full b earlier r' → Begun b earlier r' ⊎ Full b earlier r'
  failed_round r' (inr f) = inr f
  failed_round r' (inl o) = elim o.seen [
    | inl (e, k) ↦ inl (record { fits = o.fits; room = o.room; seen = e })
    | inr (e, k) ↦ inr (record { fits = o.fits; room = o.room; fresh = o.stale; seen = e })
  ]

  pub Settled-trans :
      {p q : Run} (e : Option Error) (r : Run) → Moved i p q → Settled q e r → Settled p e r
  Settled-trans e r m g = record {
    moved = Moved-trans i m g.moved;
    clear = g.clear;
    records = g.records;
  }

  -- A function that returns has settled the step.
  abbrev pub Settles : Run → Returned → Type 0
  Settles start x = (e : Option Error) × (r : Run) × (x ≡ some (e, r)) × Settled start e r
