-- ===== src/Tests/OfParse.antt =====
-- A request, a query, a loop section and a step that are read, and the function of an alias.
use mathlib.Core.List
use runn.Common.{String, ◌≡◌, refl, Bool, true, false, Option, none, some, [], ◌∷◌, ◌==◌, lookup}
use runn.Common.Int.{pos}
use runn.Common.Text.{join}
use runn.Common.Strings.{
  has_first, has_last, trim_last, trim_first, trim, to_upper, split, trim_right,
}
use runn.Value.{bool, text, dict, Fields, end, field}
use runn.Value.Maps.{get}
use runn.Errors.{message, ok}
use runn.Bind.{yields}
use runn.Operator.{Step, IncludeConfig}
use runn.Parse.{Reader, flag_of}
use runn.Parse.Delimiter.{trim_delimiter, trim_string_delimiter}
use runn.Parse.Trimmed.{IsTrimmed, trim_string_delimiter-IsTrimmed}
use runn.Parse.Service.{
  parse_service_and_method, parse_service_and_method-join, join-parse_service_and_method,
}
use runn.Parse.Http.{HttpRequest, parse_http_request, read_http_request}
use runn.Parse.Requests.{IsValid, parse_http_request-IsValid}
use runn.Parse.Command.{parse_db_query, parse_include_config}
use runn.Parse.Queries.{parse_db_query-untraced, config_value, parse_include_config-config_value}
use runn.LoopSection.{
  LoopReader, LoopSection, new_loop, fill, parse_intervals, parse_duration, is_number, is_ready,
}
use runn.LoopSection.Ready.{new_loop-is_ready}
use runn.CdpFunctions.{CdpFn, CdpArgType, cdp_fn_map, find_cdp_fn}
use runn.CdpFunctions.Aliases.{find_cdp_fn-named}
use runn.AppendStep.{
  Clients, append_step, new_step, sections, section, remove, if_section, desc_section, loop_section,
  test_section, dump_section, bind_section, pop_runner, set_runner, client_of,
}
use runn.AppendStep.Served.{IsServed, append_step-IsServed}

abbrev reader : Reader
reader = record { marshal = λ m. ok ""; expand = λ v. ok v; parse_duration = λ t. ok (pos 5) }

parse_service_and_method-join_example :
    parse_service_and_method "grpc.Greeter/Hello" ≡ ok ("grpc.Greeter", "Hello")
unfolding has_first
parse_service_and_method-join_example =
    parse_service_and_method-join "grpc.Greeter" "Hello" refl refl

read_method : parse_service_and_method "/grpc.Greeter/Hello" ≡ ok ("grpc.Greeter", "Hello")
unfolding parse_service_and_method split trim_first join
read_method = refl

join-parse_service_and_method_example : "grpc.Greeter/Hello" ≡ trim_first "/" "/grpc.Greeter/Hello"
join-parse_service_and_method_example =
    join-parse_service_and_method "/grpc.Greeter/Hello" "grpc.Greeter" "Hello" read_method

trim_string_delimiter-IsTrimmed_example : IsTrimmed (trim_string_delimiter "'\"a\"'")
trim_string_delimiter-IsTrimmed_example = trim_string_delimiter-IsTrimmed "'\"a\"'"

abbrev users : Fields
users =
    field "/users"
      (dict (
        field "post"
          (dict (
            field "body"
              (dict (field "application/json" (dict (field "name" (text "'ann'") end)) end)) end))
          end))
      end

abbrev users_request : HttpRequest
users_request = record {
  path = "/users";
  method = "POST";
  headers = [];
  media_type = "application/json";
  body = dict (field "name" (text "ann") end);
  use_cookie = none;
  trace = none;
}

users_read : parse_http_request reader users ≡ yields users_request
unfolding parse_http_request read_http_request trim_delimiter get to_upper has_first has_last
    trim_last trim_first
users_read = refl

parse_http_request-IsValid_example :
    (method : String) × (m : Fields) × (trim_delimiter users
      ≡ field "/users" (dict (field method (dict m) end)) end)
    × ("POST" ≡ to_upper method)
    × IsValid users_request
parse_http_request-IsValid_example =
    parse_http_request-IsValid reader users users_request users_read

abbrev select : Fields
select = field "query" (text "SELECT 1\n") end

select_read : parse_db_query reader select ≡ yields (record { stmt = "SELECT 1"; trace = none })
unfolding parse_db_query flag_of get trim
select_read = refl

abbrev no_trace : Option Bool
no_trace = none

parse_db_query-untraced_example :
    (t : String) × (select ≡ field "query" (text t) end)
    × ((trim " " t == "") ≡ false)
    × ("SELECT 1" ≡ trim " \n" t)
    × (no_trace ≡ none)
parse_db_query-untraced_example =
    parse_db_query-untraced reader select (record { stmt = "SELECT 1"; trace = none }) select_read

abbrev nested : IncludeConfig
nested = record {
  path = "login.yml";
  vars = field "user" (text "ann") end;
  skip_test = true;
  force = false;
}

parse_include_config-config_value_example :
    parse_include_config (config_value nested) ≡ yields nested
parse_include_config-config_value_example = parse_include_config-config_value nested

-- YAML that reads no field.
abbrev pub loop_reader : LoopReader
loop_reader = record {
  marshal = λ v. ok "10\n";
  unmarshal = λ t. (
    record {
      count = "";
      interval = "";
      min_interval = "";
      max_interval = "";
      jitter = none;
      multiplier = none;
      until = "";
    },
    some (message "not a map"),
  );
  parse_duration = λ t. ok (pos 0);
  zero_jitter = 0;
  default_jitter = 0;
  default_multiplier = 1;
}

abbrev ten_times : LoopSection
ten_times = record {
  fields = record {
    count = "10";
    interval = "0";
    min_interval = "";
    max_interval = "";
    jitter = some 0;
    multiplier = none;
    until = "";
  };
  interval = some (pos 0);
  min_interval = none;
  max_interval = none;
}

ten_times_read : new_loop loop_reader (text "10") ≡ ok ten_times
unfolding new_loop fill parse_intervals parse_duration is_number trim_right
ten_times_read = refl

new_loop-is_ready_example : (is_ready ten_times ≡ true) × (("10" == "") ≡ false)
new_loop-is_ready_example = new_loop-is_ready loop_reader (text "10") ten_times ten_times_read

abbrev screenshot : CdpFn
screenshot = record { args = (CdpArgType.response, "png") ∷ []; aliases = "getScreenshot" ∷ [] }

screenshot_found : lookup "screenshot" cdp_fn_map ≡ some screenshot
unfolding lookup cdp_fn_map
screenshot_found = refl

find_cdp_fn-named_example : find_cdp_fn "getScreenshot" ≡ ok ("screenshot", screenshot)
find_cdp_fn-named_example =
    find_cdp_fn-named "screenshot" "getScreenshot" screenshot screenshot_found refl

abbrev clients : Clients
clients = record { http = "req" ∷ []; db = "db" ∷ []; grpc = []; cdp = []; ssh = [] }

abbrev pub step_map : Fields
step_map = field "desc" (text "first") (field "db" (dict select) (field "test" (bool true) end))

abbrev pub db_step : Step
unfolding new_step
db_step = record (new_step "one") {
  runner_key = "db";
  desc = "first";
  db_query = some select;
  test_cond = some "true";
}

db_step_read : append_step clients loop_reader "one" step_map [] ≡ yields (db_step ∷ [])
unfolding append_step sections if_section desc_section loop_section test_section dump_section
    bind_section section remove pop_runner set_runner client_of new_step get
db_step_read = refl

append_step-IsServed_example :
    (step : Step) × (db_step ∷ [] ≡ List.◌++◌ [] (step ∷ [])) × IsServed clients "one" step
append_step-IsServed_example =
    append_step-IsServed clients loop_reader "one" step_map [] (db_step ∷ []) db_step_read
