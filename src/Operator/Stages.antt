-- ===== src/Operator/Stages.antt =====
-- What holds between the parts of `stepFn`, and when it returns.
use runn.Common.{
  ℕ, sym, subst, ◌≡◌, ◌∙◌, ap, ◌⊎◌, inl, inr, Bool, true, false, not, Option, none, some, List, [],
  ◌∷◌, ◌++◌,
}
use runn.Value.{Fields, end, bool}
use runn.Value.Maps.{put}
use runn.Errors.{Error}
use runn.Result.{no_step}
use runn.Store.{Store}
use runn.Store.View.{view, Distinct}
use runn.Operator.{Runbook, StepState, Run, World}
use runn.Operator.Exec.{change}
use runn.Operator.Record.{is_later_round, record_run, set_state}
use runn.Operator.Runners.{record_first}
use runn.Operator.Fits.{step_keys, Fits}
use runn.Operator.Sequence.{record_value-view}
use runn.Operator.Frame.{
  Moved, Moved-trans, Moved-store, Moved-set_state, IsClear, store-set_state, state-set_state, Open,
  Full, Ensures, Ensures-change,
}

module _ {earlier : List Fields} (s s₀ : Store) (later : List Fields)
    (round : s.loop_index ≡ s₀.loop_index) (seen : view s ≡ view s₀) where
  still_open :
      ((view s₀ ≡ earlier) × (is_later_round s₀.loop_index ≡ false))
        ⊎ ((view s₀ ≡ later) × (is_later_round s₀.loop_index ≡ true))
      → ((view s ≡ earlier) × (is_later_round s.loop_index ≡ false))
        ⊎ ((view s ≡ later) × (is_later_round s.loop_index ≡ true))
  still_open (inl (h, k)) = inl (seen ∙ h, rw round k)
  still_open (inr (h, k)) = inr (seen ∙ h, rw round k)

module _ (b : Runbook) (i : ℕ) (start : Run) (earlier : List Fields) where
  abbrev Recorded : Bool → Run → Type 0
  Recorded true r = Full b earlier r
  Recorded false r = Open b earlier r

  abbrev pub Left : Option Error → Run → Type 0
  Left none r = Full b earlier r
  Left (some e) r = Open b earlier r ⊎ Full b earlier r

  -- What holds between the parts of `stepFn`, with the variable `run`.
  pub record Stage (run : Bool) (r : Run) : Type 0 where
    pub moved : Moved i start r
    pub clear : IsClear i r
    pub same_round : r.store.loop_index ≡ start.store.loop_index
    pub records : Recorded run r

  -- What holds when it returns.
  pub record Done (e : Option Error) (r : Run) : Type 0 where
    pub moved : Moved i start r
    pub clear : IsClear i r
    pub same_round : r.store.loop_index ≡ start.store.loop_index
    pub records : Left e r

  -- An error may come at any stage.
  pub fail_at : (run : Bool) (e : Error) (r : Run) → Stage run r → Done (some e) r
  fail_at true e r g = record {
    moved = g.moved;
    clear = g.clear;
    same_round = g.same_round;
    records = inr g.records;
  }
  fail_at false e r g = record {
    moved = g.moved;
    clear = g.clear;
    same_round = g.same_round;
    records = inl g.records;
  }

  module _ (distinct : Distinct (step_keys b)) where
    pub record_run-Stage :
        (v : Fields) (r : Run)
        → Stage false r
        → Ensures (λ _. Stage true) Done (change (record_run b v) r)
    unfolding record_run
    record_run-Stage v r g =
        let o = g.records in
        let (s', written, fits, kept, seen) =
          record_value-view b distinct (put "run" (bool true) v) r earlier o.stale o.fits o.room
            o.seen in
        Ensures-change (λ _. Stage true) Done (record_run b v) r (record r { store = s' }) written
          (record {
            moved = Moved-trans i g.moved (Moved-store i r s');
            clear = g.clear;
            same_round = kept.round ∙ g.same_round;
            records = record {
              fits = fits;
              room = o.room;
              fresh = put "run" (bool true) v;
              seen = seen;
            };
          })

    pub record_first-Stage :
        (w : World) (run : Bool) (r : Run)
        → Stage run r
        → Ensures (λ _. Stage true) Done (record_first w b (not run) r)
    unfolding record_first
    record_first-Stage w true r g = g
    record_first-Stage w false r g = record_run-Stage end r g

    -- A change of the store that touches no record, and of the step's state.
    pub Stage-with_store :
        (s : Store) (run : Bool) (r : Run)
        → Stage run r
        → Fits b s
        → s.loop_index ≡ r.store.loop_index
        → view s ≡ view r.store
        → Stage run (record r { store = s })
    Stage-with_store s true r g f round seen = record {
      moved = Moved-trans i g.moved (Moved-store i r s);
      clear = g.clear;
      same_round = round ∙ g.same_round;
      records = record {
        fits = f;
        room = g.records.room;
        fresh = g.records.fresh;
        seen = seen ∙ g.records.seen;
      };
    }
    Stage-with_store s false r g f round seen = record {
      moved = Moved-trans i g.moved (Moved-store i r s);
      clear = g.clear;
      same_round = round ∙ g.same_round;
      records = record {
        fits = f;
        room = g.records.room;
        stale = g.records.stale;
        seen = still_open s r.store (earlier ++ g.records.stale ∷ []) round seen g.records.seen;
      };
    }

    pub Recorded-same :
        (run : Bool) (r r' : Run) → r'.store ≡ r.store → Recorded run r → Recorded run r'
    Recorded-same true r r' e g = record {
      fits = subst (Fits b) (sym e) g.fits;
      room = g.room;
      fresh = g.fresh;
      seen = ap view e ∙ g.seen;
    }
    Recorded-same false r r' e g = record {
      fits = subst (Fits b) (sym e) g.fits;
      room = g.room;
      stale = g.stale;
      seen =
          still_open r'.store r.store (earlier ++ g.stale ∷ []) (ap (λ s. s.loop_index) e)
            (ap view e) g.seen;
    }

    pub Stage-set_state :
        (f : StepState → StepState) (run : Bool) (r : Run)
        → ((st : StepState) → st.result ≡ no_step → (f st).result ≡ no_step)
        → Stage run r
        → Stage run (set_state i f r)
    Stage-set_state f run r h g = record {
      moved = Moved-trans i g.moved (Moved-set_state i f r);
      clear = λ st' k.
          let (st, was, same) = state-set_state i f r st' k in
          ap (λ s. s.result) same ∙ h st (g.clear st was);
      same_round = ap (λ s. s.loop_index) (store-set_state i f r) ∙ g.same_round;
      records = Recorded-same run r (set_state i f r) (store-set_state i f r) g.records;
    }

    pub Fits-of : (run : Bool) (r : Run) → Recorded run r → Fits b r.store
    Fits-of true r g = g.fits
    Fits-of false r g = g.fits
