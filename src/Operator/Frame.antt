-- ===== src/Operator/Frame.antt =====
-- What a step may change, and where a round of it stands: the invariant of `stepFn`.
use runn.Common.{
  ℕ, ◌<◌, ◌≡◌, ◌≢◌, refl, sym, subst, ◌∙◌, ◌⊎◌, inl, inr, true, false, Option, none, some, List, [],
  ◌∷◌, ◌++◌, arith, length, get_elem?, length-set, get_elem?-set, get_elem?-set_ne, Option-cases,
}
use runn.Value.{Fields}
use runn.Errors.{Error}
use runn.Result.{no_step}
use runn.Store.{Store}
use runn.Store.View.{view}
use runn.Operator.{Runbook, StepState, Run}
use runn.Operator.Exec.{Exec, panics, returns, goes_on, ◌>>=◌, change}
use runn.Operator.Record.{is_later_round, set_state}
use runn.Operator.Fits.{Fits}

-- Step `i` leaves the other steps' states alone, and what is not its own.
pub record Moved (i : ℕ) (r r' : Run) : Type 0 where
  pub others : (j : ℕ) → j ≢ i → get_elem? r'.states j ≡ get_elem? r.states j
  pub count : length r'.states ≡ length r.states
  pub skipped : r'.skipped ≡ r.skipped
  pub round : r'.loop_index ≡ r.loop_index

-- The step has no result yet.
abbrev pub IsClear : ℕ → Run → Type 0
IsClear i r = (st : StepState) → get_elem? r.states i ≡ some st → st.result ≡ no_step

pub Moved-refl : (i : ℕ) (r : Run) → Moved i r r
Moved-refl i r = record { others = λ j h. refl; count = refl; skipped = refl; round = refl }

pub Moved-trans : (i : ℕ) {p q r : Run} → Moved i p q → Moved i q r → Moved i p r
Moved-trans i m n = record {
  others = λ j h. n.others j h ∙ m.others j h;
  count = n.count ∙ m.count;
  skipped = n.skipped ∙ m.skipped;
  round = n.round ∙ m.round;
}

pub Moved-store : (i : ℕ) (r : Run) (s : Store) → Moved i r (record r { store = s })
Moved-store i r s = record { others = λ j h. refl; count = refl; skipped = refl; round = refl }

pub Moved-set_state : (i : ℕ) (f : StepState → StepState) (r : Run) → Moved i r (set_state i f r)
unfolding set_state
Moved-set_state i f r = record {
  others = λ j h. elim (Option-cases (get_elem? r.states i)) [
    | inl e ↦ ground arith
    | inr (st, e) ↦ ground (arith, get_elem?-set_ne r.states (f st) (λ k. h (sym k)))
  ];
  count = elim (Option-cases (get_elem? r.states i)) [
    | inl e ↦ ground arith
    | inr (st, e) ↦ ground (arith, length-set r.states i (f st))
  ];
  skipped = ground arith;
  round = ground arith;
}

pub store-set_state :
    (i : ℕ) (f : StepState → StepState) (r : Run) → (set_state i f r).store ≡ r.store
unfolding set_state
store-set_state i f r = ground arith

-- The state after a change of it.
pub state-set_state :
    (i : ℕ) (f : StepState → StepState) (r : Run) (st' : StepState)
    → get_elem? (set_state i f r).states i ≡ some st'
    → (st : StepState) × (get_elem? r.states i ≡ some st) × (st' ≡ f st)
unfolding set_state
state-set_state i f r st' h = elim (Option-cases (get_elem? r.states i)) [
  | inl e ↦ absurd (ground arith)
  | inr (st, e) ↦ (st, e, ground (arith, get_elem?-set r.states i (f st) e))
]

-- The records before the round: the earlier steps', and in a later round that of the round before.
pub record Open (b : Runbook) (earlier : List Fields) (r : Run) : Type 0 where
  pub fits : Fits b r.store
  pub room : length earlier < length b.steps
  pub stale : Fields
  pub seen :
      ((view r.store ≡ earlier) × (is_later_round r.store.loop_index ≡ false))
      ⊎ ((view r.store ≡ earlier ++ stale ∷ []) × (is_later_round r.store.loop_index ≡ true))

-- The records after the step has recorded.
pub record Full (b : Runbook) (earlier : List Fields) (r : Run) : Type 0 where
  pub fits : Fits b r.store
  pub room : length earlier < length b.steps
  pub fresh : Fields
  pub seen : view r.store ≡ earlier ++ fresh ∷ []

-- A postcondition for going on, and one for returning. A panic has none.
abbrev pub Ensures {ℓ} :
    {A : Type ℓ} → (A → Run → Type 0) → (Option Error → Run → Type 0) → Exec A → Type 0
Ensures P Q panics = ⊥
Ensures P Q (returns e r) = Q e r
Ensures P Q (goes_on a r) = P a r

module _ {ℓ κ} {A : Type ℓ} {B : Type κ} (P : A → Run → Type 0) (P' : B → Run → Type 0)
    (Q : Option Error → Run → Type 0) where
  Ensures-next :
      (e : Exec A) (f : A → Run → Exec B)
      → Ensures P Q e
      → ((a : A) (r' : Run) → P a r' → Ensures P' Q (f a r'))
      → Ensures P' Q
          (elim e [ panics ↦ panics | returns e r' ↦ returns e r' | goes_on a r' ↦ f a r' ])
  Ensures-next panics f h k = h
  Ensures-next (returns e r') f h k = h
  Ensures-next (goes_on a r') f h k = k a r' h

  pub Ensures-bind :
      (m : Run → Exec A) (f : A → Run → Exec B) (r : Run)
      → Ensures P Q (m r)
      → ((a : A) (r' : Run) → P a r' → Ensures P' Q (f a r'))
      → Ensures P' Q ((m >>= f) r)
  Ensures-bind m f r h k = Ensures-next (m r) f h k

module _ (P : Unit {0} → Run → Type 0) (Q : Option Error → Run → Type 0) where
  Ensures-some :
      (o : Option Run) (r' : Run)
      → o ≡ some r'
      → P tt r'
      → Ensures P Q (elim o [ none ↦ panics | some r'' ↦ goes_on tt r'' ])
  Ensures-some none r' e h = absurd (cc)
  Ensures-some (some r) r' e h = let same : r' ≡ r = cc in subst (P tt) same h

  -- An operation that does not panic.
  pub Ensures-change :
      (f : Run → Option Run) (r r' : Run) → f r ≡ some r' → P tt r' → Ensures P Q (change f r)
  Ensures-change f r r' e h = Ensures-some (f r) r' e h
