-- ===== src/Tests/OfRunbooks.antt =====
-- Three runbooks: their IDs, a selection of them, and a step with two sections.
use runn.Common.{
  ℕ, ◌≤◌, ◌<◌, String, ◌≡◌, ◌≢◌, refl, ◌⊎◌, inl, inr, Bool, true, false, List, [], ◌∷◌, ◌==◌,
  if◌then◌else◌, length, Bool-cases, arith, eq_iff,
}
use runn.Common.Strings.{split, trim, trim_right, trim_left}
use runn.Common.Text.{join}
use runn.Value.Maps.{get}
use runn.Value.{Value, text, Fields, end, field}
use runn.Errors.{message, ok, err}
use runn.Store.View.{Distinct, Fresh}
use runn.Bind.{yields}
use runn.Operator.{Step}
use runn.CdpFunctions.{contains}
use runn.AppendStep.{new_step, sections}
use runn.StepKeys.{validate_step_keys}
use runn.StepKeys.Single.{sections-single}
use runn.Shards.{count}
use runn.Ids.{IdTools, ids_at, longest, reversed_paths, generate_ids_using_path}
use runn.Ids.Repeats.{Repeats}
use runn.Ids.Unique.{generate_ids_using_path-Distinct, generate_ids_using_path-fails}
use runn.Selection.{Selector, Options, selected_operators}
use runn.Statements.{scan, separate_stmt}
use runn.Statements.Pieces.{whole, IsSeparate, scan-Separate}
use runn.Selection.Selected.{selected_operators-Counted}
use runn.Tests.OfParse.{loop_reader}

abbrev reversed_onto : List String → List String → List String
reversed_onto done [] = done
reversed_onto done (x ∷ l) = reversed_onto (x ∷ done) l

-- Each text once.
abbrev once : List String → List String
once [] = []
once (x ∷ l) = if contains l x then once l else x ∷ once l

once-shorter : (l : List String) → length (once l) ≤ length l
once-shorter [] = omega arith
once-shorter (x ∷ l) = let rest = once-shorter l in ground (arith, rest)

contains-Fresh : (x : String) (l : List String) → contains l x ≡ false → Fresh x l
contains-Fresh x [] h = tt
contains-Fresh x (y ∷ l) h =
    (λ e. absurd (ground (arith, eq_iff y x)), contains-Fresh x l (ground arith))

once-Distinct : (l : List String) → length (once l) ≡ length l → Distinct l
once-Distinct [] h = tt
once-Distinct (x ∷ l) h =
    let fewer = once-shorter l in
    elim (Bool-cases (contains l x)) [
      | inl again ↦ absurd (ground (arith, fewer))
      | inr new ↦ (contains-Fresh x l new, once-Distinct l (ground arith))
    ]

Fresh-contains : (x : String) (l : List String) → Fresh x l → contains l x ≡ false
Fresh-contains x [] h = refl
Fresh-contains x (y ∷ l) (differs, fresh) =
    ground (arith, eq_iff y x, differs, Fresh-contains x l fresh)

once-keeps : (l : List String) → Distinct l → length (once l) ≡ length l
once-keeps [] h = refl
once-keeps (x ∷ l) (fresh, distinct) =
    ground (arith, Fresh-contains x l fresh, once-keeps l distinct)

abbrev tools : IdTools
tools = record {
  abs = λ p. if p == "" then err (message "no path") else ok p;
  digest = λ p. p;
  random = λ i k. "r-";
  reverse = reversed_onto [];
  uniq = once;
}

abbrev books : List String
books = "/b/login.yml" ∷ "/b/top.yml" ∷ []

abbrev same_names : List (List String)
same_names =
    ("login.yml" ∷ "a" ∷ "" ∷ []) ∷ ("login.yml" ∷ "b" ∷ "" ∷ []) ∷ ("top.yml" ∷ "b" ∷ "" ∷ []) ∷ []

abbrev ids : List String
ids = "login.yml/a" ∷ "login.yml/b" ∷ "top.yml/b" ∷ []

ids_generated : generate_ids_using_path tools ("/a/login.yml" ∷ books) ≡ ok ids
unfolding generate_ids_using_path split join
ids_generated = refl

generate_ids_using_path-Distinct_example :
    (length ids ≡ 3)
    × Distinct ids
    × ((n : ℕ) × (rps : List (List String)) × (reversed_paths tools ("/a/login.yml" ∷ books)
          ≡ ok rps)
        × (ids ≡ ids_at tools n rps)
        × (1 ≤ n)
        × (n ≤ longest rps)
        × ((m : ℕ) → 1 ≤ m → m < n → length (once (ids_at tools m rps)) ≢ length rps))
generate_ids_using_path-Distinct_example =
    generate_ids_using_path-Distinct tools once-Distinct "/a/login.yml" books ids ids_generated

-- The same runbook twice has no ID.
twice_refused :
    generate_ids_using_path tools ("/b/top.yml" ∷ "/b/top.yml" ∷ [])
    ≡ err (message "failed to generate ids")
unfolding generate_ids_using_path split join
twice_refused = refl

generate_ids_using_path-fails_example :
    (reversed_paths tools ("/b/top.yml" ∷ "/b/top.yml" ∷ [])
      ≡ err (message "failed to generate ids"))
    ⊎ ((rps : List (List String)) × (reversed_paths tools ("/b/top.yml" ∷ "/b/top.yml" ∷ [])
          ≡ ok rps)
        × ((m : ℕ) → 1 ≤ m → m ≤ longest rps → Repeats (ids_at tools m rps)))
generate_ids_using_path-fails_example =
    generate_ids_using_path-fails tools once-keeps "/b/top.yml" ("/b/top.yml" ∷ [])
      (message "failed to generate ids") twice_refused

abbrev selector : Selector String
selector = record { copied = λ o. ok o; renewed = λ o. ok o; shuffled = λ l. l; draw = λ i n. 0 }

abbrev options : Options
options = record {
  run_count = 1;
  shuffle = true;
  shard_n = 2;
  shard_index = 1;
  sample = 1;
  random = 0;
}

abbrev is_top : String → Bool
is_top p = p == "/b/top.yml"

selected_operators-Counted_example :
    (l : List String) × (selected_operators selector options ("/a/login.yml" ∷ books) ≡ yields l)
    × (count is_top l ≤ count is_top ("/a/login.yml" ∷ books))
    × (0 < 1 → length l ≤ 1)
selected_operators-Counted_example =
    selected_operators-Counted selector options is_top (λ o. (o, refl, refl)) (λ l. refl)
      (λ i n h. h) ("/a/login.yml" ∷ books) refl

sections_read :
    sections loop_reader (new_step "one", field "desc" (text "first") (field "db" (text "q") end))
    ≡ yields (record (new_step "one") { desc = "first" }, field "db" (text "q") end)
unfolding sections get
sections_read = refl

abbrev read_step : Step × Fields
unfolding new_step
read_step = (record (new_step "one") { desc = "first" }, field "db" (text "q") end)

sections-single_example :
    (field "db" (text "q") end ≡ end)
    ⊎ ((k : String) × (v : Value) × (field "db" (text "q") end ≡ field k v end))
unfolding validate_step_keys read_step
sections-single_example =
    sections-single loop_reader (new_step "one")
      (field "desc" (text "first") (field "db" (text "q") end)) read_step refl sections_read

-- A semicolon in quotes separates nothing.
scan-Separate_example :
    (whole (scan false false "SELECT ';'; SELECT 1") ≡ "SELECT ';'; SELECT 1")
    × IsSeparate (scan false false "SELECT ';'; SELECT 1")
scan-Separate_example = scan-Separate "SELECT ';'; SELECT 1"

-- Behind the last semicolon, a final `n` is cut off the statement.
name_cut : separate_stmt "SELECT 1; SELECT * FROM admin" ≡ "SELECT 1;" ∷ " SELECT * FROM admi" ∷ []
unfolding separate_stmt trim trim_right trim_left
name_cut = refl
