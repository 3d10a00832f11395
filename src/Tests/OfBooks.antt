-- ===== src/Tests/OfBooks.antt =====
-- Small books, and a loader that connects to nothing.
use runn.Common.{String, ◌≡◌, refl, true, none, some, [], ◌∷◌}
use runn.Common.Int.{pos}
use runn.Value
use runn.Value.{Value, Fields}
use runn.Value.Maps.{get}
use runn.Errors.{ok}
use runn.Bind.{yields}
use runn.Operator.{Step}
use runn.AppendStep.{
  append_step, new_step, sections, section, remove, if_section, desc_section, loop_section,
  test_section, dump_section, bind_section, pop_runner, set_runner, client_of,
}
use runn.RunnerConfig.{no_http, no_grpc, no_db, no_ssh, configure}
use runn.RunnerConfig.HttpOptions.{http_timeout}
use runn.Book.{Book, new_book}
use runn.Book.Changes.{panics, done}
use runn.Book.Loader.{Loader, generate_operator_root}
use runn.Book.Clients.{new_http_runner_with_handler}
use runn.Book.Parsing.{parse_runners}
use runn.Book.AllKnown.{parse_runners-known}
use runn.Book.Known.{is_known}
use runn.Book.Merging.{merge, overlay_book, underlay_book}
use runn.Book.Layers.{Layered, overlay-underlay}
use runn.Scopes.{no_scopes}
use runn.Options.{on_book}
use runn.Options.Settings.{debug}
use runn.Options.HttpClients.{http_runner_with_handler}
use runn.Options.OtherClients.{db_runner_with_options}
use runn.Options.Applying.{apply_options, for_book}
use runn.Options.Panics.{apply_options-panics}
use runn.Construct.{
  Operator, operator_of, names, check_names, add_names, check_runners, runner_error, append_steps,
}
use runn.Book.SetUp.{Renewal, set_up_all}
use runn.Construct.Built.{IsBuilt, operator_of-IsBuilt}
use runn.Tests.OfParse.{loop_reader}

abbrev loader : Loader
loader = record {
  getwd = ok "/work";
  dir = λ p. "/books";
  join = λ root p. root;
  read_file = λ p. ok "pem";
  stat = λ p. none;
  marshal = λ m. ok "";
  unmarshal_http = λ b. ok no_http;
  unmarshal_grpc = λ b. ok no_grpc;
  unmarshal_db = λ b. ok no_db;
  unmarshal_ssh = λ b. ok no_ssh;
  parse_url = λ u. ok u;
  parse_dsn = λ d. none;
  parse_duration = λ t. (pos 5, none);
  load_uri = λ u. ok 1;
  load_doc_file = λ p. ok 1;
  validate_doc = λ d. none;
  browser_opts = 0;
  new_ssh_client = λ h opts. ok 1;
  start_session = λ c lf. none;
  eval_expand = λ v store. ok v;
  evaluate_schema = λ v root store. ok v;
}

abbrev renewal : Renewal
renewal = record {
  renew_db = λ r. none;
  renew_grpc = λ r. none;
  renew_cdp = λ r. none;
  renew_ssh = λ r. none;
}

abbrev with_var : String → Value → Fields → Book
with_var k v step = record new_book {
  vars = Value.Fields.field k v Value.Fields.end;
  raw_steps = step ∷ [];
}

abbrev test_step : Fields
test_step = Value.Fields.field "test" (Value.text "true") Value.Fields.end

abbrev dump_step : Fields
dump_step = Value.Fields.field "dump" (Value.text "vars") Value.Fields.end

abbrev base_book : Book
base_book = record new_book {
  vars = Value.Fields.field "host" (Value.text "a") Value.Fields.end;
  raw_steps = test_step ∷ [];
}

abbrev top_book : Book
top_book = record new_book {
  vars = Value.Fields.field "host" (Value.text "b") Value.Fields.end;
  raw_steps = dump_step ∷ [];
}

overlay-underlay_example :
    (o u : Book) × (overlay_book base_book top_book ≡ done o)
    × (underlay_book top_book base_book ≡ done u)
    × Layered base_book top_book o
    × Layered base_book top_book u
unfolding new_book
overlay-underlay_example = overlay-underlay base_book top_book refl

-- `merge` loses the `concurrency` of the runbook that it loads.
merge_loses : (merge new_book (record new_book { concurrency = "db" ∷ [] })).concurrency ≡ []
unfolding merge new_book
merge_loses = refl

abbrev runner_book : Book
runner_book = record new_book {
  runners = Value.Fields.field "req" (Value.text "https://example.com") Value.Fields.end;
}

parse_runners-known_example :
    (b : Book) × (parse_runners loader none runner_book ≡ done b) × (is_known b "req" ≡ true)
unfolding new_book get
parse_runners-known_example =
    parse_runners-known loader runner_book "req" (Value.text "https://example.com") refl refl

apply_options-panics_example :
    apply_options
      (debug true ∷ db_runner_with_options loader "db" "sqlite://x" [] ∷ [])
      new_book
      no_scopes
    ≡ panics
apply_options-panics_example =
    apply_options-panics loader "db" "sqlite://x" [] (debug true ∷ []) [] new_book no_scopes

-- A handler has no client whose timeout could be set.
handler_timeout :
    http_runner_with_handler loader "req" 1 (http_timeout "5s" ∷ []) (for_book new_book no_scopes)
    ≡ panics
unfolding http_runner_with_handler on_book configure http_timeout new_http_runner_with_handler
    new_book
handler_timeout = refl

abbrev built_book : Book
built_book = record new_book { raw_steps = test_step ∷ []; step_keys = "one" ∷ []; use_map = true }

abbrev built_step : Step
built_step = record (new_step "one") { test_cond = some "true" }

abbrev built : Operator
built = record {
  book = built_book;
  root = "/work";
  http_runners = [];
  db_runners = [];
  grpc_runners = [];
  cdp_runners = [];
  ssh_runners = [];
  number_of_steps = 1;
  steps = built_step ∷ [];
}

built_returns : operator_of loader renewal loop_reader built_book ≡ yields built
unfolding operator_of generate_operator_root set_up_all names check_names add_names check_runners
    runner_error append_steps append_step sections if_section desc_section loop_section test_section
    dump_section bind_section section remove pop_runner set_runner client_of new_step get new_book
built_returns = refl

operator_of-IsBuilt_example : IsBuilt built_book built
unfolding new_book
operator_of-IsBuilt_example =
    operator_of-IsBuilt loader renewal loop_reader built_book built refl built_returns
