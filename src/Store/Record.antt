-- ===== src/Store/Record.antt =====
-- Recording, removing and updating refine the operations on the sequence of step records.
use runn.Common.{
  ◌-◌, String, ◌≡◌, refl, ap, sym, ◌≢◌, ◌⊎◌, inl, inr, true, false, Option, none, some, List, [],
  ◌∷◌, ◌++◌, arith, eq_iff, eq_refl, length, set, last?, drop_last, map_last, All-snoc, All-last,
  All-init, Snoc-cases, last?-eq-none, All-last?, Dict, lookup, insert, erase, lookup-insert,
  lookup-erase, ==_of_ne, is_some, last?-snoc, drop_last-snoc, set-length, get_elem?-length,
  Option-cases, Bool-cases,
}
use runn.Value.{Value, Fields}
use runn.Value.Maps.{put}
use runn.Store.{
  Store, record_as_mapped, remove_latest_as_mapped, record_as_listed, store_length, previous,
  latest, record_to_latest, clear_steps, step_at,
}
use runn.Store.View.{
  or_empty, entries, view, Fresh, Distinct, Present, IsStore, entries-insert, entries-erase,
  entries-snoc, length-entries,
}

Distinct-snoc :
    (keys : List String) (k : String) → Distinct keys → Fresh k keys → Distinct (keys ++ k ∷ [])
Distinct-snoc [] k d f = (tt, tt)
Distinct-snoc (j ∷ keys) k d f =
    (All-snoc (λ i. i ≢ j) keys k d.0 (λ e. f.0 (sym e)), Distinct-snoc keys k d.1 f.1)

Present-insert :
    (m : Dict Fields) (k : String) (v : Fields) (keys : List String)
    → Present m keys
    → Present (insert k v m) keys
Present-insert m k v [] h = tt
Present-insert m k v (j ∷ keys) h =
    (ground (arith, h.0, lookup-insert k j v m), Present-insert m k v keys h.1)

Present-erase :
    (m : Dict Fields) (k : String) (keys : List String)
    → Fresh k keys
    → Present m keys
    → Present (erase k m) keys
Present-erase m k [] f h = tt
Present-erase m k (j ∷ keys) f h =
    (ground (arith, h.0, f.0, eq_iff k j, lookup-erase k j m), Present-erase m k keys f.1 h.1)

-- A well-formed mapped store takes a record under a new key, which goes to the end of the sequence,
-- and it stays well formed.
pub view-record_as_mapped :
    (s : Store) (k : String) (v : Fields)
    → s.use_map ≡ true
    → IsStore s
    → Fresh k s.step_map_keys
    → (s' : Store) × (record_as_mapped s k v ≡ some s') × IsStore s' × (view s' ≡ view s ++ v ∷ [])
unfolding record_as_mapped view
view-record_as_mapped s k v mapped w fresh = (
  record s { step_map = insert k v s.step_map; step_map_keys = s.step_map_keys ++ k ∷ [] },
  rw mapped,
  record {
    distinct = Distinct-snoc s.step_map_keys k w.distinct fresh;
    present =
        All-snoc _ s.step_map_keys k (Present-insert s.step_map k v s.step_map_keys w.present)
          (simp (lookup-insert, eq_refl));
  },
  rw mapped (
      simp (entries-snoc, lookup-insert, eq_refl)
        (ap (λ l. l ++ v ∷ []) (entries-insert k v s.step_map s.step_map_keys fresh))),
)

-- A well-formed listed store takes a record, which goes to the end of the sequence, and it stays well
-- formed.
pub view-record_as_listed :
    (s : Store) (v : Fields)
    → s.use_map ≡ false
    → IsStore s
    → (s' : Store) × (record_as_listed s v ≡ some s') × IsStore s' × (view s' ≡ view s ++ v ∷ [])
unfolding record_as_listed view
view-record_as_listed s v listed w = (
  record s { steps = s.steps ++ v ∷ [] },
  rw listed,
  record { distinct = w.distinct; present = w.present },
  rw listed,
)

Fresh-last : (ks : List String) (k : String) → Distinct (ks ++ k ∷ []) → Fresh k ks
Fresh-last [] k d = tt
Fresh-last (j ∷ ks) k d = ((λ e. All-last (λ i. i ≢ j) ks k d.0 (sym e)), Fresh-last ks k d.1)

Distinct-init : (ks : List String) (k : String) → Distinct (ks ++ k ∷ []) → Distinct ks
Distinct-init [] k d = tt
Distinct-init (j ∷ ks) k d = (All-init (λ i. i ≢ j) ks k d.0, Distinct-init ks k d.1)

-- On a well-formed mapped store, removing the latest record panics if no record is there, and drops
-- the last of the sequence otherwise. The store stays well formed.
pub view-remove_latest_as_mapped :
    (s : Store)
    → s.use_map ≡ true
    → IsStore s
    → ((view s ≡ []) × (remove_latest_as_mapped s ≡ none))
      ⊎ ((s' : Store) × (remove_latest_as_mapped s ≡ some s')
          × IsStore s'
          × (view s' ≡ drop_last (view s)))
unfolding remove_latest_as_mapped view
view-remove_latest_as_mapped s mapped w = elim (Snoc-cases s.step_map_keys) [
  | inl e ↦ inl (rw (mapped, e), rw (mapped, e))
  | inr (ks, k, e) ↦
      let d : Distinct (ks ++ k ∷ []) = rw e at w.distinct in
      let p : Present s.step_map (ks ++ k ∷ []) = rw e at w.present in
      inr (
        record s { step_map = erase k s.step_map; step_map_keys = ks },
        ground (arith, last?-snoc ks k, drop_last-snoc ks k),
        record {
          distinct = Distinct-init ks k d;
          present = Present-erase s.step_map k ks (Fresh-last ks k d) (All-init _ ks k p);
        },
        rw mapped (
            cc (
              ap (λ l. drop_last (entries l s.step_map)) e,
              ap drop_last (entries-snoc ks k s.step_map),
              drop_last-snoc (entries ks s.step_map) (or_empty (lookup k s.step_map)),
              entries-erase k s.step_map ks (Fresh-last ks k d),
            )),
      )
]

-- The number of records, in both forms.
pub length-view : (s : Store) → store_length s ≡ length (view s)
unfolding store_length view
length-view s = elim (Bool-cases s.use_map) [
  | inl mapped ↦ rw mapped (sym (length-entries s.step_map_keys s.step_map))
  | inr listed ↦ rw listed
]

step_at-last? :
    (keys : List String) (m : Dict Fields)
    → Present m keys
    → step_at (last? keys) m ≡ last? (entries keys m)
step_at-last? [] m h = refl
step_at-last? (k ∷ []) m h = ground arith
step_at-last? (k ∷ j ∷ keys) m h = step_at-last? (j ∷ keys) m h.1

step_at-drop_last :
    (keys : List String) (m : Dict Fields)
    → Present m keys
    → step_at (last? (drop_last keys)) m ≡ last? (drop_last (entries keys m))
step_at-drop_last [] m h = refl
step_at-drop_last (k ∷ []) m h = refl
step_at-drop_last (k ∷ j ∷ []) m h = ground arith
step_at-drop_last (k ∷ j ∷ i ∷ keys) m h = step_at-drop_last (j ∷ i ∷ keys) m h.1

-- The latest record of a well-formed store is the last of the sequence, and none if that is empty.
pub latest-view : (s : Store) → IsStore s → latest s ≡ last? (view s)
unfolding latest view
latest-view s w = elim (Bool-cases s.use_map) [
  | inr listed ↦ rw listed
  | inl mapped ↦ rw mapped (step_at-last? s.step_map_keys s.step_map w.present)
]

-- The previous record of a well-formed store is the last but one of the sequence, and none if there
-- is no such record.
pub previous-view : (s : Store) → IsStore s → previous s ≡ last? (drop_last (view s))
unfolding previous view
previous-view s w = elim (Bool-cases s.use_map) [
  | inr listed ↦ rw listed (get_elem?-length s.steps)
  | inl mapped ↦ rw mapped (
      ground (
        arith,
        get_elem?-length s.step_map_keys,
        step_at-drop_last s.step_map_keys s.step_map w.present,
      ))
]

entries-insert_last :
    (keys : List String) (k : String) (m : Dict Fields) (f : Fields → Fields) (v : Fields)
    → Distinct keys
    → last? keys ≡ some k
    → lookup k m ≡ some v
    → entries keys (insert k (f v) m) ≡ map_last f (entries keys m)
entries-insert_last [] k m f v d e l = refl
entries-insert_last (j ∷ []) k m f v d e l = ground (arith, lookup-insert k j (f v) m, eq_refl k)
entries-insert_last (j ∷ i ∷ keys) k m f v d e l =
    let other : k ≢ j = All-last? (λ c. c ≢ j) (i ∷ keys) d.0 e in
    let rest = entries-insert_last (i ∷ keys) k m f v d.1 e l in
    let head : lookup j (insert k (f v) m) ≡ lookup j m =
      rw lookup-insert (rw (==_of_ne k j other)) in
    cc (
      ap (λ o. or_empty o ∷ entries (i ∷ keys) (insert k (f v) m)) head,
      ap (λ l. or_empty (lookup j m) ∷ l) rest,
    )

has_value : (o : Option Fields) → is_some o ≡ true → (v : Fields) × (o ≡ some v)
has_value none h = absurd (cc)
has_value (some v) h = (v, refl)

module _ (s : Store) (key : String) (value : Value) (w : IsStore s) where
  -- Both forms of the claim below.
  abbrev Updates : Type 0
  Updates =
      ((view s ≡ []) × (record_to_latest s key value ≡ none))
      ⊎ ((s' : Store) × (record_to_latest s key value ≡ some s')
          × IsStore s'
          × (view s' ≡ map_last (put key value) (view s)))

  updates_mapped : s.use_map ≡ true → Updates
  unfolding record_to_latest view
  updates_mapped mapped = elim (Option-cases (last? s.step_map_keys)) [
    | inl e ↦ inl (rw (mapped, last?-eq-none s.step_map_keys e), rw mapped (rw e))
    | inr (k, e) ↦
        let (m, l) =
          has_value (lookup k s.step_map)
            (All-last? (λ j. is_some (lookup j s.step_map) ≡ true) s.step_map_keys w.present e) in
        inr (
          record s { step_map = insert k (put key value m) s.step_map },
          ground arith,
          record {
            distinct = w.distinct;
            present = Present-insert s.step_map k (put key value m) s.step_map_keys w.present;
          },
          rw mapped
              (entries-insert_last s.step_map_keys k s.step_map (put key value) m w.distinct e l),
        )
  ]

  updates_listed : s.use_map ≡ false → Updates
  unfolding record_to_latest view
  updates_listed listed = elim (Option-cases (last? s.steps)) [
    | inl e ↦ inl (rw listed (last?-eq-none s.steps e), rw listed (rw e))
    | inr (m, e) ↦ inr (
      record s { steps = set s.steps (length s.steps - 1) (put key value m) },
      ground arith,
      record { distinct = w.distinct; present = w.present },
      rw listed (set-length (put key value) s.steps m e),
    )
  ]

-- On a well-formed store, a write through the latest record fails if no record is there, and updates
-- the last of the sequence otherwise. The store stays well formed.
pub view-record_to_latest :
    (s : Store) (key : String) (value : Value)
    → IsStore s
    → ((view s ≡ []) × (record_to_latest s key value ≡ none))
      ⊎ ((s' : Store) × (record_to_latest s key value ≡ some s')
          × IsStore s'
          × (view s' ≡ map_last (put key value) (view s)))
view-record_to_latest s key value w = elim (Bool-cases s.use_map) [
  | inl mapped ↦ updates_mapped s key value w mapped
  | inr listed ↦ updates_listed s key value w listed
]

-- Clearing leaves a well-formed store with no record and no round, and keeps the variables, bound ones
-- included.
pub view-clear_steps :
    (s : Store)
    → IsStore (clear_steps s)
      × (view (clear_steps s) ≡ [])
      × ((clear_steps s).loop_index ≡ none)
      × ((clear_steps s).bind_vars ≡ s.bind_vars)
      × ((clear_steps s).vars ≡ s.vars)
unfolding clear_steps view
view-clear_steps s = (record { distinct = tt; present = tt }, ground arith, refl, refl, refl)
