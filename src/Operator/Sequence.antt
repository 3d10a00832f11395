-- ===== src/Operator/Sequence.antt =====
-- `record` and `recordNotRun` on the sequence of step records: what a step writes goes behind what
-- the earlier steps wrote, and a later round of its loop replaces what the round before wrote.
use runn.Common.{
  ℕ, zero, suc, ◌-◌, ◌<◌, ◌≤◌, String, ◌≡◌, ◌≢◌, refl, sym, ap, ◌∙◌, ◌⊎◌, inl, inr, true, false,
  some, List, [], ◌∷◌, ◌++◌, arith, length, get_elem?, take, drop_last, Bool-cases, length-snoc,
  get_elem?_of_lt, take-suc, All-get_elem?, take-length-snoc, get_elem?-map, drop_last-snoc,
  length-map, drop_last-take,
}
use runn.Value.{Fields}
use runn.Store.{Store, record_as_listed, remove_latest_as_mapped, store_length}
use runn.Store.View.{view, Fresh, Distinct}
use runn.Store.Record.{
  length-view, view-record_as_mapped, view-record_as_listed, view-remove_latest_as_mapped,
}
use runn.Operator.{Step, Runbook, Run}
use runn.Operator.Record.{is_later_round, record_listed, record_at_key, record_mapped, record_value}
use runn.Operator.Fits.{
  step_keys, Fits, Keeps, Keeps-trans, record_as_mapped-Keeps, record_as_listed-Keeps,
  remove_latest_as_mapped-Keeps,
}

Fresh-take :
    (keys : List String) (n : ℕ) (k : String)
    → Distinct keys
    → get_elem? keys n ≡ some k
    → Fresh k (take n keys)
Fresh-take [] n k d h = absurd (cc)
Fresh-take (j ∷ keys) zero k d h = tt
Fresh-take (j ∷ keys) (suc n) k d h =
    ((λ e. All-get_elem? (λ i. i ≢ j) keys n d.0 h (sym e)), Fresh-take keys n k d.1 h)

listed_steps : (s : Store) → s.use_map ≡ false → view s ≡ s.steps
unfolding view
listed_steps s listed = rw listed

cut_listed :
    (n : ℕ) (steps earlier : List Fields) (x : Fields)
    → n ≡ suc (length earlier)
    → steps ≡ earlier ++ x ∷ []
    → take (n - 1) steps ≡ earlier
cut_listed n steps earlier x size same =
    let less : n - 1 ≡ length earlier = omega (arith, size) in
    rw less (rw same (take-length-snoc earlier x))

module _ (b : Runbook) (distinct : Distinct (step_keys b)) (v : Fields) where
  -- The record of the next step in the mapped form.
  record_at_key-view :
      (s : Store)
      → Fits b s
      → s.use_map ≡ true
      → length (view s) < length b.steps
      → (s' : Store) × (record_at_key (get_elem? b.steps (store_length s)) s v ≡ some s')
        × Fits b s'
        × Keeps s s'
        × (view s' ≡ view s ++ v ∷ [])
  record_at_key-view s f mapped h =
      let (step, found) = get_elem?_of_lt b.steps (length (view s)) h in
      let key_found = get_elem?-map (λ (t : Step). t.key) b.steps (length (view s)) found in
      let fresh : Fresh step.key s.step_map_keys =
        rw (f.keys mapped)
          (Fresh-take (step_keys b) (length (view s)) step.key distinct key_found) in
      let (s', recorded, stored, seen) = view-record_as_mapped s step.key v mapped f.stored fresh in
      let (kept, keys) = record_as_mapped-Keeps s s' step.key v recorded in
      (
        s',
        rw length-view (rw found recorded),
        record {
          stored = stored;
          mode = kept.mode ∙ f.mode;
          keys = λ e. cc (
            keys,
            f.keys mapped,
            take-suc (step_keys b) (length (view s)) step.key key_found,
            ap length seen,
            length-snoc (view s) v,
          );
        },
        kept,
        seen,
      )

  record_listed-view :
      (s : Store)
      → Fits b s
      → s.use_map ≡ false
      → (s' : Store) × (record_as_listed s v ≡ some s')
        × Fits b s'
        × Keeps s s'
        × (view s' ≡ view s ++ v ∷ [])
  record_listed-view s f listed =
      let (s', recorded, stored, seen) = view-record_as_listed s v listed f.stored in
      let kept = record_as_listed-Keeps s s' v recorded in
      (
        s',
        recorded,
        record { stored = stored; mode = kept.mode ∙ f.mode; keys = λ e. cc (kept.mode, listed) },
        kept,
        seen,
      )

  -- The keys, when the latest goes.
  shorter_keys :
      (s s' : Store) (earlier : List Fields) (x : Fields)
      → s.step_map_keys ≡ take (length (view s)) (step_keys b)
      → s'.step_map_keys ≡ drop_last s.step_map_keys
      → view s ≡ earlier ++ x ∷ []
      → view s' ≡ earlier
      → length (view s) ≤ length b.steps
      → s'.step_map_keys ≡ take (length (view s')) (step_keys b)
  shorter_keys s s' earlier x before after seen rest h =
      let room : length earlier < length (step_keys b) = omega (
        arith,
        h,
        ap length seen,
        length-snoc earlier x,
        length-map b.steps (λ (t : Step). t.key),
      ) in
      cc (
        after,
        ap drop_last before,
        ap (λ l. drop_last (take (length l) (step_keys b))) seen,
        ap (λ n. drop_last (take n (step_keys b))) (length-snoc earlier x),
        drop_last-take (step_keys b) (length earlier) room,
        ap (λ l. take (length l) (step_keys b)) rest,
      )

  -- Taking the latest record off the mapped form.
  remove-view :
      (s : Store) (earlier : List Fields) (x : Fields)
      → Fits b s
      → s.use_map ≡ true
      → view s ≡ earlier ++ x ∷ []
      → length (view s) ≤ length b.steps
      → (s' : Store) × (remove_latest_as_mapped s ≡ some s')
        × Fits b s'
        × Keeps s s'
        × (view s' ≡ earlier)
  remove-view s earlier x f mapped seen h = elim (view-remove_latest_as_mapped s mapped f.stored) [
    | inl (empty, _) ↦
        absurd (omega (arith, ap length empty, ap length seen, length-snoc earlier x))
    | inr (s', removed, stored, left) ↦
        let (kept, keys) = remove_latest_as_mapped-Keeps s s' removed in
        let rest : view s' ≡ earlier = left ∙ (ap drop_last seen ∙ drop_last-snoc earlier x) in
        (
          s',
          removed,
          record {
            stored = stored;
            mode = kept.mode ∙ f.mode;
            keys = λ e. shorter_keys s s' earlier x (f.keys mapped) keys seen rest h;
          },
          kept,
          rest,
        )
  ]

  -- What a record of the step comes to.
  abbrev Written : Run → List Fields → Type 0
  Written r earlier =
      (s' : Store) × (record_value b v r ≡ some (record r { store = s' }))
      × Fits b s'
      × Keeps r.store s'
      × (view s' ≡ earlier ++ v ∷ [])

  module _ (r : Run) (earlier : List Fields) (x : Fields) (f : Fits b r.store)
      (room : length earlier < length b.steps) where
    record_value-first_mapped :
        b.use_map ≡ true
        → view r.store ≡ earlier
        → is_later_round r.store.loop_index ≡ false
        → Written r earlier
    unfolding record_value record_mapped
    record_value-first_mapped mapped seen first =
        let (s', recorded, fits, kept, seen') =
          record_at_key-view r.store f (f.mode ∙ mapped) (omega (arith, room, ap length seen)) in
        (s', rw mapped (rw first (rw recorded)), fits, kept, seen' ∙ ap (λ l. l ++ v ∷ []) seen)

    record_value-first_listed :
        b.use_map ≡ false
        → view r.store ≡ earlier
        → is_later_round r.store.loop_index ≡ false
        → Written r earlier
    unfolding record_value record_listed
    record_value-first_listed listed seen first =
        let (s', recorded, fits, kept, seen') = record_listed-view r.store f (f.mode ∙ listed) in
        (s', rw listed (rw first (rw recorded)), fits, kept, seen' ∙ ap (λ l. l ++ v ∷ []) seen)

    record_value-later_mapped :
        b.use_map ≡ true
        → view r.store ≡ earlier ++ x ∷ []
        → is_later_round r.store.loop_index ≡ true
        → Written r earlier
    unfolding record_value record_mapped
    record_value-later_mapped mapped seen later =
        let full : length (view r.store) ≤ length b.steps =
          omega (arith, room, ap length seen, length-snoc earlier x) in
        let (s, removed, fits, kept, seen₁) =
          remove-view r.store earlier x f (f.mode ∙ mapped) seen full in
        let (s', recorded, fits', kept', seen₂) =
          record_at_key-view s fits (fits.mode ∙ mapped) (omega (arith, room, ap length seen₁)) in
        (
          s',
          rw mapped (rw later (rw removed (rw recorded))),
          fits',
          Keeps-trans kept kept',
          seen₂ ∙ ap (λ l. l ++ v ∷ []) seen₁,
        )

    record_value-later_listed :
        b.use_map ≡ false
        → view r.store ≡ earlier ++ x ∷ []
        → is_later_round r.store.loop_index ≡ true
        → Written r earlier
    unfolding record_value record_listed
    record_value-later_listed listed seen later =
        let steps : r.store.steps ≡ earlier ++ x ∷ [] =
          sym (listed_steps r.store (f.mode ∙ listed)) ∙ seen in
        let size : store_length r.store ≡ suc (length earlier) =
          length-view r.store ∙ (ap length seen ∙ length-snoc earlier x) in
        let cut : take (store_length r.store - 1) r.store.steps ≡ earlier =
          cut_listed (store_length r.store) r.store.steps earlier x size steps in
        let s = record r.store { steps = take (store_length r.store - 1) r.store.steps } in
        let seen₁ : view s ≡ earlier = listed_steps s (f.mode ∙ listed) ∙ cut in
        let fits : Fits b s = record {
          stored = record { distinct = f.stored.distinct; present = f.stored.present };
          mode = f.mode;
          keys = λ e. cc (e, f.mode, listed);
        } in
        let (s', recorded, fits', kept, seen₂) = record_listed-view s fits (f.mode ∙ listed) in
        (
          s',
          rw listed (rw later (ground (arith, size, recorded))),
          fits',
          Keeps-trans (record { mode = refl; round = refl; vars = refl; bind_vars = refl }) kept,
          seen₂ ∙ ap (λ l. l ++ v ∷ []) seen₁,
        )

  -- If the keys of the runbook's steps differ, the store fits the runbook and a step has still to
  -- record, then `record` does not panic: outside of a loop and in its first round it writes behind
  -- the records of the earlier steps, and in a later round in the place of the round before. The
  -- store still fits, and its variables and its round stay.
  pub record_value-view :
      (r : Run) (earlier : List Fields) (x : Fields)
      → Fits b r.store
      → length earlier < length b.steps
      → ((view r.store ≡ earlier) × (is_later_round r.store.loop_index ≡ false))
        ⊎ ((view r.store ≡ earlier ++ x ∷ []) × (is_later_round r.store.loop_index ≡ true))
      → (s' : Store) × (record_value b v r ≡ some (record r { store = s' }))
        × Fits b s'
        × Keeps r.store s'
        × (view s' ≡ earlier ++ v ∷ [])
  record_value-view r earlier x f h (inl (seen, first)) = elim (Bool-cases b.use_map) [
    | inl mapped ↦ record_value-first_mapped r earlier x f h mapped seen first
    | inr listed ↦ record_value-first_listed r earlier x f h listed seen first
  ]
  record_value-view r earlier x f h (inr (seen, later)) = elim (Bool-cases b.use_map) [
    | inl mapped ↦ record_value-later_mapped r earlier x f h mapped seen later
    | inr listed ↦ record_value-later_listed r earlier x f h listed seen later
  ]
