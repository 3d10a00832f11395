-- ===== src/Book/AllKnown.antt =====
-- The runners of a runbook after `parseRunners` of book.go.
use runn.Common.{
  String, ◌≡◌, ◌≢◌, refl, ap, ◌∙◌, Bool, true, false, not, ◌&&◌, ◌||◌, none, some, ◌==◌, eq_iff,
  eq_refl, arith, if◌then◌else◌, lookup-insert, lookup-erase, Bool-cases, inl, inr,
}
use runn.Value
use runn.Value.{Value, Fields}
use runn.Value.Maps.{get}
use runn.Errors.{Error, Result, ok, err}
use runn.Book.{Book}
use runn.Book.Changes.{Changed, panics, fails, done, ◌>>=◌, with_ok}
use runn.Book.Loader.{Loader}
use runn.Book.Parsing.{
  parse_map_runner, parse_runner, parse_those, parse_runners, noted, clear_error, note_error,
  detect_ssh_runner,
}
use runn.Book.Known.{is_known, Others, Parses, parse_text_runner-Parses}
use runn.Book.Detected.{parse_map_runner-Parses}

-- A runner is a text or a map.
abbrev pub is_runner : Value → Bool
is_runner (Value.text t) = true
is_runner (Value.dict m) = true
is_runner v = false

abbrev pub are_runners : Fields → Bool
are_runners Value.Fields.end = true
are_runners (Value.Fields.field k v m) = is_runner v && are_runners m

clear_error-Others : (k : String) (bk : Book) → Others k bk (clear_error k bk)
clear_error-Others k bk j d = ground (arith, lookup-erase k j bk.runner_errs, eq_iff k j, d)

note_error-known :
    (k : String) (e : Error) (bk b : Book)
    → Others k bk b
    → (is_known (note_error k e b) k ≡ true) × Others k bk (note_error k e b)
note_error-known k e bk b h = (
  ground (arith, lookup-insert k k e b.runner_errs, eq_refl k),
  λ j d. ground (arith, lookup-insert k j e b.runner_errs, eq_iff k j, d, h j d),
)

-- The name is known, and the others are as they were.
Settled : String → Book → Changed Book → Type 0
Settled k bk panics = ⊥
Settled k bk (fails e b) = ⊥
Settled k bk (done b) = (is_known b k ≡ true) × Others k bk b

noted-Settled :
    (k : String) (bk : Book) (m : Changed Book)
    → Parses k (clear_error k bk) m
    → Settled k bk (noted k m)
unfolding Settled
noted-Settled k bk panics h = h
noted-Settled k bk (fails e b) h =
    note_error-known k e bk b λ j d. h j d ∙ clear_error-Others k bk j d
noted-Settled k bk (done b) h = (ground (arith, h.0), λ j d. h.1 j d ∙ clear_error-Others k bk j d)

Settled-done :
    (k : String) (bk : Book) (m : Changed Book)
    → Settled k bk m
    → (b : Book) × (m ≡ done b) × (is_known b k ≡ true) × Others k bk b
unfolding Settled
Settled-done k bk panics h = absurd h
Settled-done k bk (fails e b) h = absurd h
Settled-done k bk (done b) h = (b, refl, h.0, h.1)

-- What is known of a name before and after one runner, if its key is the name or not.
known-after :
    (k j : String) (bk b : Book)
    → is_known b k ≡ true
    → Others k bk b
    → is_known b j ≡ (k == j || is_known bk j)
known-after k j bk b h o = elim (Bool-cases (k == j)) [
  | inl e ↦ ground (arith, h, e, eq_iff k j)
  | inr e ↦ let differs : k ≢ j = ground (arith, eq_iff k j, e) in ground (arith, e, o j differs)
]

module _ (w : Loader) where
  parse_runner-Settled :
      (k : String) (v : Value) (bk : Book)
      → is_runner v ≡ true
      → Settled k bk (noted k (parse_runner w k v bk))
  unfolding parse_runner
  parse_runner-Settled k (Value.text t) bk h =
      noted-Settled k bk _ (parse_text_runner-Parses w k t (clear_error k bk))
  parse_runner-Settled k (Value.dict m) bk h = by_text (w.marshal m)
    where
      by_text :
          (a : Result String)
          → Settled k bk (
              noted k
                (with_ok (clear_error k bk) a λ tmp. parse_map_runner w k tmp (clear_error k bk)))
      by_text (err e) = noted-Settled k bk (fails e (clear_error k bk)) λ j d. refl
      by_text (ok tmp) = noted-Settled k bk _ (parse_map_runner-Parses w k tmp (clear_error k bk))
  parse_runner-Settled k _ bk h = absurd (cc)

  -- Whether the pass takes the runner of a name.
  abbrev taken : (Value → Bool) → Fields → String → Bool
  taken test Value.Fields.end j = false
  taken test (Value.Fields.field k v m) j = (test v && k == j) || taken test m j

  -- A pass returns, and knows the names that it takes and those that were known.
  Passed : (Value → Bool) → Fields → Book → Changed Book → Type 0
  Passed test m bk r =
      (b : Book) × (r ≡ done b) × ((j : String) → is_known b j ≡ (taken test m j || is_known bk j))

  parse_those-Passed :
      (test : Value → Bool) (m : Fields) (bk : Book)
      → are_runners m ≡ true
      → Passed test m bk (parse_those w test m bk)
  unfolding parse_those Passed Settled
  parse_those-Passed test Value.Fields.end bk h = (bk, refl, λ j. refl)
  parse_those-Passed test (Value.Fields.field k v m) bk h =
      by_test (test v) (λ b. parse_those-Passed test m b (ground (arith, h)))
    where
      by_test :
          (t : Bool)
          → ((b : Book) → Passed test m b (parse_those w test m b))
          → (b : Book) × ((if t
                then noted k (parse_runner w k v bk) >>= parse_those w test m
                else parse_those w test m bk)
              ≡ done b)
            × ((j : String) → is_known b j ≡ ((t && k == j) || taken test m j || is_known bk j))
      by_test true rest =
          let (b₁, e₁, known, others) =
            Settled-done k bk _ (parse_runner-Settled k v bk (ground (arith, h))) in
          let (b, e, after) = rest b₁ in
          (
            b,
            ap (λ r. r >>= parse_those w test m) e₁ ∙ e,
            λ j. ground (arith, after j, known-after k j bk b₁ known others),
          )
      by_test false rest = rest bk

  taken-either :
      (test : Value → Bool) (m : Fields) (k : String) (v : Value)
      → get k m ≡ some v
      → (taken (λ u. not (test u)) m k || taken test m k) ≡ true
  unfolding get
  taken-either test Value.Fields.end k v h = absurd (cc)
  taken-either test (Value.Fields.field j u m) k v h =
      by_key (j == k) (test u) h (taken-either test m k v)
    where
      by_key :
          (same t : Bool)
          → (if same then some u else get k m) ≡ some v
          → (get k m ≡ some v → (taken (λ u. not (test u)) m k || taken test m k) ≡ true)
          → (((not t && same) || taken (λ u. not (test u)) m k) || ((t && same) || taken test m k))
            ≡ true
      by_key true true h rest = ground arith
      by_key true false h rest = refl
      by_key false t h rest = ground (arith, rest h)

  -- If each runner of a runbook is a text or a map, `parseRunners`, without a store, returns without
  -- a panic and without an error, and each runner is then a client of its name, or has an error
  -- noted under it.
  pub parse_runners-known :
      (bk : Book) (k : String) (v : Value)
      → are_runners bk.runners ≡ true
      → get k bk.runners ≡ some v
      → (b : Book) × (parse_runners w none bk ≡ done b) × (is_known b k ≡ true)
  unfolding parse_runners Passed
  parse_runners-known bk k v h g =
      let (b₁, e₁, f₁) = parse_those-Passed (detect_ssh_runner w) bk.runners bk h in
      let (b₂, e₂, f₂) = parse_those-Passed (λ u. not (detect_ssh_runner w u)) bk.runners b₁ h in
      let either = taken-either (detect_ssh_runner w) bk.runners k v g in
      (
        b₂,
        ap (λ r. r >>= parse_those w (λ u. not (detect_ssh_runner w u)) bk.runners) e₁ ∙ e₂,
        ground (arith, f₁ k, f₂ k, either),
      )
