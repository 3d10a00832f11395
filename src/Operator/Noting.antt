-- ===== src/Operator/Noting.antt =====
-- What `runInternal` writes after a step: its result, its record if it has none, and its outcome.
use runn.Common.{
  ℕ, ◌+◌, ◌<◌, ◌≡◌, refl, sym, ap, ◌∙◌, ◌⊎◌, inl, inr, String, Bool, true, false, Option, none,
  some, List, [], ◌∷◌, ◌++◌, get_elem?, get_elem?_of_lt, get_elem?-set, length-set,
  get_elem?-set_ne, set, length, eqb, if◌then◌else◌, arith, length-snoc, map_last, map_last-snoc,
  take,
}
use runn.Value.{Value, bool, Fields, end}
use runn.Value.Maps.{put}
use runn.Errors.{Error, is_skip}
use runn.Result.{StepResult, no_step, step_result}
use runn.Store
use runn.Store.{Store, store_length}
use runn.Store.View.{view, Distinct}
use runn.Store.Record.{length-view, view-record_to_latest}
use runn.Operator.{Step, Runbook, StepState, Run}
use runn.Operator.Record.{
  set_result, record_not_run, record_to_latest, new_result, write_result, show_run,
}
use runn.Operator.Fits.{step_keys, Fits, Keeps}
use runn.Operator.Sequence.{record_value-view}
use runn.Operator.Frame.{Moved, IsClear, Full}
use runn.Operator.StepRounds.{Begun}
use runn.Operator.Outcomes.{
  Outcome, skipped, failed, outcome_of_error, outcome_of_parts, outcome_of_result,
}

module _ (b : Runbook) (i : ℕ) where
  -- The step's state has a result with this outcome.
  abbrev pub Resulted : Outcome → Run → Type 0
  Resulted o r =
      (st : StepState) × (get_elem? r.states i ≡ some st) × (outcome_of_result st.result ≡ some o)

  Moved-states : (r : Run) (st : StepState) → Moved i r (record r { states = set r.states i st })
  Moved-states r st = record {
    others = λ j h. get_elem?-set_ne r.states st (λ k. h (sym k));
    count = length-set r.states i st;
    skipped = refl;
    round = refl;
  }

  outcome_of_skip :
      (skip : Bool) (e : Error)
      → some (outcome_of_parts skip (if skip then none else some e))
        ≡ some (if skip then skipped else failed)
  outcome_of_skip true e = refl
  outcome_of_skip false e = refl

  outcome_of_new_result :
      (s : Step) (e : Option Error) (r : Run)
      → outcome_of_result (new_result b i s e r) ≡ some (outcome_of_error e)
  unfolding new_result
  outcome_of_new_result s none r = refl
  outcome_of_new_result s (some e) r = outcome_of_skip (is_skip (some e)) e

  if_empty :
      (x : StepResult) (r' : Run)
      → x ≡ no_step
      → elim x as (λ _. Option Run) [ no_step ↦ some r' | _ ↦ none ] ≡ some r'
  if_empty no_step r' h = refl
  if_empty (step_result _ _ _ _ _ _ _) r' h = absurd (cc)

  written :
      (result : StepResult) (r : Run) (st : StepState)
      → get_elem? r.states i ≡ some st
      → st.result ≡ no_step
      → write_result b i result (get_elem? r.states i) r
        ≡ some (record r { states = set r.states i (record st { result = result }) })
  written result r st found empty =
      let r' = record r { states = set r.states i (record st { result = result }) } in
      ap (λ o. write_result b i result o r) found ∙ if_empty st.result r' empty

  -- `setResult` of a step that has no result yet does not panic: the step's result then has the
  -- outcome that the error stands for, where a skip is no error, and the other steps' states and the
  -- store are as before.
  pub set_result-Resulted :
      (s : Step) (e : Option Error) (r : Run)
      → IsClear i r
      → i < length r.states
      → (r' : Run) × (set_result b i s e r ≡ some r')
        × Resulted (outcome_of_error e) r'
        × Moved i r r'
        × (r'.store ≡ r.store)
  unfolding set_result
  set_result-Resulted s e r clear h =
      let (st, found) = get_elem?_of_lt r.states i h in
      let empty = clear st found in
      let st' = record st { result = new_result b i s e r } in
      (
        record r { states = set r.states i st' },
        written (new_result b i s e r) r st found empty,
        (st', get_elem?-set r.states i st' found, outcome_of_new_result s e r),
        Moved-states r st',
        refl,
      )

  -- If the keys of the steps differ and step `i`, outside of a round, has recorded at most once behind
  -- the `i` records of the earlier steps, then `recordNotRun` does not panic and leaves the step with
  -- exactly one record.
  pub record_not_run-Full :
      (earlier : List Fields) (r : Run)
      → Distinct (step_keys b)
      → length earlier ≡ i
      → r.store.loop_index ≡ none
      → Begun b earlier r ⊎ Full b earlier r
      → (s' : Store) × (record_not_run b i r ≡ some (record r { store = s' }))
        × Full b earlier (record r { store = s' })
        × (s'.loop_index ≡ none)
  unfolding record_not_run
  record_not_run-Full earlier r d size n (inl g) =
      let (s', written, fits, kept, seen) =
        record_value-view b d (put "run" (bool false) end) r earlier end g.fits g.room
          (inl (g.seen, rw n refl)) in
      let open_still : eqb (store_length r.store) (i + 1) ≡ false =
        ground (arith, length-view r.store, ap length g.seen) in
      (
        s',
        rw open_still written,
        record { fits = fits; room = g.room; fresh = put "run" (bool false) end; seen = seen },
        kept.round ∙ n,
      )
  record_not_run-Full earlier r d size n (inr g) =
      let closed : eqb (store_length r.store) (i + 1) ≡ true =
        ground (arith, length-view r.store, ap length g.seen, length-snoc earlier g.fresh) in
      (r.store, rw closed refl, g, n)

record_to_latest-Keeps :
    (s s' : Store) (key : String) (value : Value)
    → Store.record_to_latest s key value ≡ some s'
    → Keeps s s' × (s'.step_map_keys ≡ s.step_map_keys)
unfolding Store.record_to_latest
record_to_latest-Keeps s s' key value h = ground arith

module _ (b : Runbook) (i : ℕ) (earlier : List Fields) (key : String) (value : Value) where
  -- If the step has recorded, then `recordToLatest` does not fail and writes into that record alone;
  -- the states and the round are as before.
  pub record_to_latest-Full :
      (r : Run)
      → (g : Full b earlier r)
      → (r' : Run) × (record_to_latest b key value r ≡ (none, r'))
        × Moved i r r'
        × (r'.states ≡ r.states)
        × Fits b r'.store
        × (view r'.store ≡ earlier ++ put key value g.fresh ∷ [])
        × (r'.store.loop_index ≡ r.store.loop_index)
  unfolding record_to_latest show_run
  record_to_latest-Full r g = elim (view-record_to_latest r.store key value g.fits.stored) [
    | inl (e, _) ↦ absurd (ground (arith, length-snoc earlier g.fresh, ap length (sym g.seen ∙ e)))
    | inr (s', done, stored, seen) ↦
        let (kept, keys) = record_to_latest-Keeps r.store s' key value done in
        let now : view s' ≡ earlier ++ put key value g.fresh ∷ [] =
          seen
          ∙ (ap (map_last (put key value)) g.seen
              ∙ map_last-snoc (put key value) earlier g.fresh) in
        (
          record (show_run b r) { store = s' },
          rw (done, record_to_latest) refl,
          record { others = λ j h. refl; count = refl; skipped = refl; round = refl },
          refl,
          record {
            stored = stored;
            mode = kept.mode ∙ g.fits.mode;
            keys = λ m.
                keys
                ∙ (g.fits.keys (sym kept.mode ∙ m)
                    ∙ ap (λ n. take n (step_keys b))
                        (ap length g.seen
                          ∙ (length-snoc earlier g.fresh
                              ∙ (sym (length-snoc earlier (put key value g.fresh))
                                  ∙ sym (ap length now)))));
          },
          now,
          kept.round,
        )
  ]
