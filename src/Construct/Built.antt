-- ===== src/Construct/Built.antt =====
-- The clients and the steps of an operator from `New` of operator.go.
use mathlib.Core.List.{◌++◌, append_assoc, append-nil}
use runn.Common.{
  ℕ, suc, ◌≤◌, String, ◌≡◌, refl, ap, sym, subst, ◌∙◌, Bool, true, false, Option, none, some, List,
  [], ◌∷◌, length, get_elem?, if◌then◌else◌,
}
use runn.Common.Text.{decimal}
use runn.Value.{Fields}
use runn.Bind.{Attempt, panics, fails, yields}
use runn.Operator.{Step}
use runn.LoopSection.{LoopReader}
use runn.Parse.Requests.{yields-bind, yields_injective}
use runn.AppendStep.{Clients, append_step}
use runn.AppendStep.Served.{IsServed, append_step-IsServed}
use runn.Book.{Book}
use runn.Book.Loader.{Loader}
use runn.Construct.{
  Operator, key_at, kept_if, append_steps, clients_of, operator_of, with_clients, with_steps,
  root_of, check_names, check_runners,
}
use runn.Book.SetUp.{Renewal}
use runn.Construct.Names.{kinds, check_names-single}

-- The key of the `i`-th step: its own, or its number.
abbrev pub expected_key : Book → ℕ → Option String
expected_key bk i = if bk.use_map then get_elem? bk.step_keys i else some (decimal i)

-- The steps from the `i`-th on have their keys, and their requests have clients.
abbrev pub Steps : Clients → Book → ℕ → List Step → Type 0
Steps c bk i [] = Unit
Steps c bk i (step ∷ steps) =
    (expected_key bk i ≡ some step.key) × IsServed c step.key step × Steps c bk (suc i) steps

key_at-expected :
    (bk : Book) (i : ℕ) (k : String) → key_at bk i ≡ yields k → expected_key bk i ≡ some k
key_at-expected bk i k h = by_kind bk.use_map (get_elem? bk.step_keys i) h
  where
    by_kind :
        (b : Bool) (o : Option String)
        → (if b then elim o [ none ↦ panics | some k ↦ yields k ] else yields (decimal i))
          ≡ yields k
        → (if b then o else some (decimal i)) ≡ some k
    by_kind true none h = absurd (cc)
    by_kind true (some j) h = ap (λ k. some k) (yields_injective h)
    by_kind false o h = ap (λ k. some k) (yields_injective h)

kept_if-yields :
    (only : Bool) (steps out : List Step) (m : Attempt (List Step))
    → only ≡ false
    → kept_if only steps m ≡ yields out
    → m ≡ yields out
kept_if-yields true steps out m e h = absurd (cc)
kept_if-yields false steps out panics e h = absurd (cc)
kept_if-yields false steps out (fails x) e h = absurd (cc)
kept_if-yields false steps out (yields s) e h = h

module _ (r : LoopReader) (c : Clients) (bk : Book) (strict : bk.load_only ≡ false) where
  append_steps-Steps :
      (i : ℕ) (raw : List Fields) (steps out : List Step)
      → append_steps r c bk i raw steps ≡ yields out
      → (new : List Step) × (out ≡ steps ++ new) × (length new ≡ length raw) × Steps c bk i new
  unfolding append_steps
  append_steps-Steps i [] steps out h = ([], sym (append-nil steps ∙ yields_injective h), refl, tt)
  append_steps-Steps i (s ∷ raw) steps out h =
      let (key, keyed, h₁) = yields-bind (key_at bk i) _ out h in
      let (steps', kept, h₂) =
        yields-bind (kept_if bk.load_only steps (append_step c r key s steps)) _ out h₁ in
      let appended =
        kept_if-yields bk.load_only steps steps' (append_step c r key s steps) strict kept in
      let (step, same, served) = append_step-IsServed c r key s steps steps' appended in
      let (new, split, count, rest) = append_steps-Steps (suc i) raw steps' out h₂ in
      (
        step ∷ new,
        split ∙ (ap (λ l. l ++ new) same ∙ append_assoc steps (step ∷ []) new),
        ap (λ n. suc n) count,
        (
          key_at-expected bk i key keyed ∙ ap (λ k. some k) (sym served.keyed),
          subst (λ k. IsServed c k step) (sym served.keyed) served,
          rest,
        ),
      )

-- The clients and the steps fit the book.
pub record IsBuilt (bk : Book) (o : Operator) : Type 0 where
  pub single : (k : String) → kinds (clients_of o) k ≤ 1
  pub count : length o.steps ≡ length bk.raw_steps
  pub steps : Steps (clients_of o) bk 0 o.steps

with_steps-IsBuilt :
    (w : Loader) (n : Renewal) (r : LoopReader) (bk : Book) (o o' : Operator)
    → bk.load_only ≡ false
    → with_steps w n r bk o ≡ yields o'
    → IsBuilt bk o'
with_steps-IsBuilt w n r bk o o' strict h =
    let c = clients_of o in
    let (out, checked, h₁) = yields-bind (check_names c) _ o' h in
    let (_, _, h₂) = yields-bind (check_runners bk) _ o' h₁ in
    let (steps, appended, same) = yields-bind (append_steps r c bk 0 bk.raw_steps []) _ o' h₂ in
    let (new, split, count, fit) =
      append_steps-Steps r c bk strict 0 bk.raw_steps [] steps appended in
    subst (IsBuilt bk) (yields_injective same) (record {
      single = λ k. check_names-single c out k checked;
      count = ap (λ (l : List Step). length l) split ∙ count;
      steps = subst (Steps c bk 0) (sym split) fit;
    })

-- When `New` builds an operator from a book that is not only loaded, no name is a client of two
-- kinds; there is a step for each step of the book, in order, with its key, or its number if the
-- steps stand in a list; and each step carries one request at most, for whose client the operator
-- has a client of that kind.
pub operator_of-IsBuilt :
    (w : Loader) (n : Renewal) (r : LoopReader) (bk : Book) (o : Operator)
    → bk.load_only ≡ false
    → operator_of w n r bk ≡ yields o
    → IsBuilt bk o
unfolding operator_of
operator_of-IsBuilt w n r bk o strict h =
    let (root, _, h₁) = yields-bind (root_of w n r bk) _ o h in
    let (clients, _, h₂) = yields-bind (with_clients w n r bk root) _ o h₁ in
    with_steps-IsBuilt w n r bk clients o strict h₂
