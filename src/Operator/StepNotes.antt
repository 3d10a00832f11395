-- ===== src/Operator/StepNotes.antt =====
-- What `runInternal` notes of one step.
use runn.Common.{
  ℕ, ◌<◌, ◌≡◌, sym, subst, ap, ◌∙◌, ◌⊎◌, inl, inr, Option, none, some, List, [], ◌∷◌, ◌++◌, length,
  get_elem?,
}
use runn.Value.{text, Fields}
use runn.Value.Maps.{get, put, get-put}
use runn.Errors.{Error, step_skipped}
use runn.Store.View.{view, Distinct}
use runn.Operator.{Step, Runbook, Run, World}
use runn.Operator.Exec.{returns, goes_on, ◌>>◌, change}
use runn.Operator.Record.{set_result, record_not_run}
use runn.Operator.Internal.{record_outcome, note_skipped}
use runn.Operator.Fits.{step_keys, Fits}
use runn.Operator.Frame.{
  Moved, Moved-trans, Moved-store, IsClear, Full, Ensures, Ensures-bind, Ensures-change,
}
use runn.Operator.StepRounds.{Begun, Ends-same, Fits-at_end}
use runn.Operator.StepEnds.{Ended}
use runn.Operator.Outcomes.{Outcome, succeeded, skipped, outcome_name, outcome_of_error}
use runn.Operator.Noting.{Resulted, set_result-Resulted, record_not_run-Full, record_to_latest-Full}

-- The step has its result, and may have its record.
pub record Marked (b : Runbook) (i : ℕ) (earlier : List Fields) (start : Run) (o : Outcome)
    (r : Run) : Type 0 where
  pub moved : Moved i start r
  pub resulted : Resulted b i o r
  pub records : Begun b earlier r ⊎ Full b earlier r
  pub no_round : r.store.loop_index ≡ none

-- The step has its result and its record, and the record tells the result's outcome.
pub record Noted (b : Runbook) (i : ℕ) (earlier : List Fields) (start : Run) (o : Outcome) (r : Run)
    : Type 0 where
  pub moved : Moved i start r
  pub resulted : Resulted b i o r
  pub fits : Fits b r.store
  pub fresh : Fields
  pub seen : view r.store ≡ earlier ++ fresh ∷ []
  pub told : get "outcome" fresh ≡ some (text (outcome_name o))
  pub no_round : r.store.loop_index ≡ none

-- Such a part of the loop's body never returns from `runInternal`.
abbrev pub Never : Option Error → Run → Type 0
Never e r = ⊥

module _ (w : World) (b : Runbook) (i : ℕ) (earlier : List Fields)
    (distinct : Distinct (step_keys b)) (size : length earlier ≡ i) (start : Run) where
  abbrev pub IsMarked : Outcome → Unit {0} → Run → Type 0
  IsMarked o _ r = Marked b i earlier start o r

  abbrev pub IsClosed : Outcome → Unit {0} → Run → Type 0
  IsClosed o _ r = Marked b i earlier start o r × Full b earlier r

  abbrev pub IsNoted : Outcome → Unit {0} → Run → Type 0
  IsNoted o _ r = Noted b i earlier start o r

  marked :
      (s : Step) (e : Option Error) (r : Run)
      → Moved i start r
      → IsClear i r
      → i < length r.states
      → Begun b earlier r ⊎ Full b earlier r
      → r.store.loop_index ≡ none
      → (r' : Run) × (set_result b i s e r ≡ some r')
        × Marked b i earlier start (outcome_of_error e) r'
        × (r'.store ≡ r.store)
  marked s e r m clear h g n =
      let (r', done, resulted, moved, same) = set_result-Resulted b i s e r clear h in
      (
        r',
        done,
        record {
          moved = Moved-trans i m moved;
          resulted = resulted;
          records =
              Ends-same b i earlier (some step_skipped) r r'
                (subst (Fits b) (sym same) (Fits-at_end b i earlier (some step_skipped) r g))
                (ap view same) g;
          no_round = ap (λ s. s.loop_index) same ∙ n;
        },
        same,
      )

  pub set_result-Marked :
      (s : Step) (e : Option Error) (r : Run)
      → Moved i start r
      → IsClear i r
      → i < length r.states
      → Begun b earlier r ⊎ Full b earlier r
      → r.store.loop_index ≡ none
      → Ensures (IsMarked (outcome_of_error e)) Never (change (set_result b i s e) r)
  set_result-Marked s e r m clear h g n =
      let (r', done, k, same) = marked s e r m clear h g n in
      Ensures-change (IsMarked (outcome_of_error e)) Never (set_result b i s e) r r' done k

  pub set_result-Closed :
      (s : Step) (r : Run)
      → Ended b i earlier start none r
      → i < length r.states
      → Ensures (IsClosed succeeded) Never (change (set_result b i s none) r)
  set_result-Closed s r g h =
      let full = g.settled.records in
      let (r', done, k, same) =
        marked s none r g.settled.moved g.settled.clear h (inr full) g.no_round in
      Ensures-change (IsClosed succeeded) Never (set_result b i s none) r r' done (
        k,
        Ends-same b i earlier none r r' (subst (Fits b) (sym same) full.fits) (ap view same) full,
      )

  pub record_not_run-Closed :
      (o : Outcome) (r : Run)
      → Marked b i earlier start o r
      → Ensures (IsClosed o) Never (change (record_not_run b i) r)
  record_not_run-Closed o r g =
      let (s', done, full, n) =
        record_not_run-Full b i earlier r distinct size g.no_round g.records in
      let r' = record r { store = s' } in
      Ensures-change (IsClosed o) Never (record_not_run b i) r r' done (
        record {
          moved = Moved-trans i g.moved (Moved-store i r s');
          resulted = g.resulted;
          records = inr full;
          no_round = n;
        },
        full,
      )

  pub record_outcome-Noted :
      (o : Outcome) (r : Run)
      → IsClosed o tt r
      → Ensures (IsNoted o) Never (record_outcome w b (outcome_name o) r)
  unfolding record_outcome
  record_outcome-Noted o r (g, full) =
      let (r', done, moved, states, fits, seen, n) =
        record_to_latest-Full b i earlier "outcome" (text (outcome_name o)) r full in
      let noted : Noted b i earlier start o r' = record {
        moved = Moved-trans i g.moved moved;
        resulted =
            let (st, found, out) = g.resulted in (st, ap (λ l. get_elem? l i) states ∙ found, out);
        fits = fits;
        fresh = put "outcome" (text (outcome_name o)) full.fresh;
        seen = seen;
        told = get-put "outcome" "outcome" (text (outcome_name o)) full.fresh;
        no_round = n ∙ g.no_round;
      } in
      subst
        (λ (x : Option Error × Run).
          Ensures (IsNoted o) Never
            (elim x.0 [ some e ↦ returns (some e) x.1 | none ↦ goes_on tt x.1 ]))
        (sym done) noted

  -- `recordNotRun`, then the outcome.
  close-Noted :
      (o : Outcome) (r : Run)
      → Marked b i earlier start o r
      → Ensures
          (IsNoted o)
          Never
          ((change (record_not_run b i) >> record_outcome w b (outcome_name o)) r)
  close-Noted o r g =
      Ensures-bind (IsClosed o) (IsNoted o) Never (change (record_not_run b i))
        (λ _. record_outcome w b (outcome_name o)) r (record_not_run-Closed o r g)
        λ _ r' h. record_outcome-Noted o r' h

  pub note_skipped-Noted :
      (s : Step) (r : Run)
      → Moved i start r
      → IsClear i r
      → i < length r.states
      → Begun b earlier r
      → r.store.loop_index ≡ none
      → Ensures (IsNoted skipped) Never (note_skipped w b i s r)
  unfolding note_skipped
  note_skipped-Noted s r m clear h g n =
      Ensures-bind (IsMarked skipped) (IsNoted skipped) Never
        (change (set_result b i s (some step_skipped)))
        (λ _. change (record_not_run b i) >> record_outcome w b "skipped") r
        (set_result-Marked s (some step_skipped) r m clear h (inl g) n)
        λ _ r' k. close-Noted skipped r' k
