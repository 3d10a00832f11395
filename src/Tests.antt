-- ===== src/Tests.antt =====
-- A small runbook in a small world: three steps, of which the first makes two rounds, the second
-- fails and the third is skipped. The theorems are applied to it.
pub mod OfStore
pub mod OfSteps
pub mod OfRuns
pub mod OfResults
pub mod OfParse
pub mod OfLoops
pub mod OfRunbooks
pub mod OfBindings
pub mod OfBooks
pub mod OfFiles
use runn.Common.{
  ℕ, ◌<◌, String, ◌≡◌, ◌≢◌, eq_iff, refl, sym, subst, ap, Option, none, some, Bool, true, false,
  List, [], ◌∷◌, ◌==◌, if◌then◌else◌, arith, All, some-injective, length, get_elem?,
}
use runn.Common.Int.{ℤ, pos, to_rounds}
use runn.Value.{Value, bool, int, text, Fields, end, field}
use runn.Errors.{Error, message, Result, ok, err}
use runn.Trail.{runbook_trail}
use runn.Result.{no_run, no_step}
use runn.Store.{Store}
use runn.Store.Root.{to_map}
use runn.Store.View.{Distinct}
use runn.Eval.{Lang, eval_count}
use runn.Bind.{NodeParser, identifier}
use runn.Operator.{Loop, Step, Runbook, StepState, Run, World, Reply}
use runn.Operator.Fits.{step_keys}
use runn.Operator.StepFn.{BindsSafely}
use runn.Operator.StepRounds.{Loops}
use runn.Operator.AllSteps.{Runs}

-- An expression language of two conditions and a count.
abbrev pub small_lang : Lang
small_lang = record {
  run_expr = λ e store.
      if e == "yes"
      then ok (bool true)
      else if e == "no"
      then ok (bool false)
      else if e == "2"
      then ok (int (pos 2))
      else err (message e);
  build_tree = λ e store. ok e;
  atoi = λ t. err (message t);
  truncate = λ n. pos n;
}

abbrev pub small_parser : NodeParser
small_parser = record { parse = λ k. ok (identifier k); show_node = λ n. "" }

abbrev pub small_world : World
small_world = record {
  lang = small_lang;
  node_parser = small_parser;
  env = end;
  request = λ t r i. record {
    cookies = none;
    included_run = no_run;
    outcome = ok (field "res" (text "pong") end);
  };
  dump = λ q store. none;
  continues = λ r j. true;
  hook = λ fn result. none;
}

abbrev twice : Loop
twice = record { count = "2"; until = "" }

abbrev plain_step : String → Step
plain_step key = record {
  key = key;
  runner_key = "req";
  desc = "";
  if_cond = "";
  loop = none;
  http_request = none;
  db_query = none;
  grpc_request = none;
  cdp_actions = none;
  ssh_command = none;
  exec_command = none;
  include_config = none;
  dump_request = none;
  bind_cond = none;
  test_cond = none;
}

abbrev pub ping : Step
ping = record (plain_step "ping") {
  loop = some twice;
  http_request = some end;
  test_cond = some "yes";
}

abbrev pub check : Step
check = record (plain_step "check") { test_cond = some "no" }

abbrev pub last_step : Step
last_step = record (plain_step "last") { exec_command = some end }

abbrev pub small_book : Runbook
small_book = record {
  id = "a1";
  desc = "";
  labels = [];
  book_path = "small.yml";
  steps = ping ∷ check ∷ last_step ∷ [];
  use_map = true;
  loop = none;
  force = false;
  included = false;
  if_cond = "";
  skip_test = false;
  new_only = false;
  before_funcs = [];
  after_funcs = [];
  parent = [];
}

abbrev pub blank_store : Store
blank_store = record {
  steps = [];
  step_map_keys = [];
  step_map = [];
  vars = end;
  funcs = end;
  bind_vars = end;
  parent_vars = none;
  use_map = true;
  loop_index = none;
  cookies = none;
}

abbrev blank_state : StepState
blank_state = record { result = no_step; loop_index = none; included_run = no_run }

abbrev pub first_run : Run
first_run = record {
  store = blank_store;
  states = blank_state ∷ blank_state ∷ blank_state ∷ [];
  loop_index = none;
  skipped = false;
  run_result = no_run;
}

pub differ : (a b : String) → (a == b) ≡ false → a ≢ b
differ a b h e = absurd (ground (arith, eq_iff a b))

pub small_keys : Distinct (step_keys small_book)
small_keys = (
  (differ "check" "ping" refl, (differ "last" "ping" refl, tt)),
  ((differ "last" "check" refl, tt), (tt, tt)),
)

pub safe_of : (s : Step) → s.bind_cond ≡ none → BindsSafely small_world s
safe_of s n cond h = absurd (ground arith)

pub Loops-of : (s : Step) → s.loop ≡ none → Loops small_world s
Loops-of s n l h = absurd (ground arith)

ok-injective : {x y : ℤ} → ok x ≡ ok y → x ≡ y
ok-injective h = cc

counted : (c : ℤ) → ok (pos 2) ≡ ok c → 0 < to_rounds c
counted c h =
    let same : pos 2 ≡ c = ok-injective h in subst (λ c. 0 < to_rounds c) same (omega arith)

pub ping-Loops : Loops small_world ping
unfolding eval_count
ping-Loops l h r =
    subst
      (λ l.
        (true ≡ true)
        × ((c : ℤ) → eval_count small_lang l.count (to_map end r.store) ≡ ok c → 0 < to_rounds c))
      (some-injective h) (refl, counted)

pub small-Runs : All (Runs small_book small_world small_keys) small_book.steps
small-Runs = (
  (safe_of ping refl, ping-Loops),
  (
    (safe_of check refl, Loops-of check refl),
    ((safe_of last_step refl, Loops-of last_step refl), tt),
  ),
)
