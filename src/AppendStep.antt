-- ===== src/AppendStep.antt =====
-- `AppendStep` of operator.go: from the map of a step to the step, with the runner that it names.
pub mod Passes
pub mod Served
use Prim.Native.String.{◌++◌}
use mathlib.Core.List
use runn.Common.{
  ℕ, String, Bool, true, false, ◌||◌, Option, none, some, List, [], ◌∷◌, ◌==◌, if◌then◌else◌,
}
use runn.Value.{Value, bool, text, dict, Fields, end, field}
use runn.Value.Maps.{get}
use runn.Errors.{Error, message, wrapped, Result, ok, err}
use runn.Bind
use runn.Bind.{Attempt, panics, fails, yields, attempt, ◌>>=◌}
use runn.Operator.{Loop, Step, DumpRequest, IncludeConfig}
use runn.CdpFunctions.{contains}
use runn.LoopSection.{LoopReader, LoopSection, new_loop, loop_of}
use runn.Parse.Command.{parse_include_config}
use runn.Parse.{must_text}

-- The names of the clients that the operator holds.
pub record Clients : Type 0 where
  pub http : List String
  pub db : List String
  pub grpc : List String
  pub cdp : List String
  pub ssh : List String

-- `newStep`
unfoldable pub new_step : String → Step
new_step key = record {
  key = key;
  runner_key = "";
  desc = "";
  if_cond = "";
  loop = none;
  http_request = none;
  db_query = none;
  grpc_request = none;
  cdp_actions = none;
  ssh_command = none;
  exec_command = none;
  include_config = none;
  dump_request = none;
  bind_cond = none;
  test_cond = none;
}

-- `delete(s, k)`
unfoldable pub remove : String → Fields → Fields
remove k end = end
remove k (field j v m) = let rest = remove k m in if j == k then rest else field j v rest

-- A section: the value is read, the step is set, and the key is deleted.
unfoldable pub section {ℓ} :
    {X : Type ℓ}
    → String
    → (Value → Attempt X)
    → (X → Step → Step)
    → Step × Fields
    → Attempt (Step × Fields)
unfolding remove
section k read set (step, s) = elim (get k s) [
  | none ↦ yields (step, s)
  | some v ↦ elim (read v) [
    | panics ↦ panics
    | fails e ↦ fails e
    | yields x ↦ yields (set x step, remove k s)
  ]
]

-- The errors without the value that they print.
abbrev refuse {ℓ} : {A : Type ℓ} → String → Attempt A
refuse what = fails (message ("invalid " ++ what))

abbrev read_text : String → Value → Attempt String
read_text what (text t) = yields t
read_text what v = refuse what

abbrev pub read_map : String → Value → Attempt Fields
read_map what (dict m) = yields m
read_map what v = refuse what

abbrev read_test : Value → Attempt String
read_test (bool true) = yields "true"
read_test (bool false) = yields "false"
read_test (text t) = yields t
read_test v = refuse "test condition"

abbrev read_loop : LoopReader → Value → Attempt Loop
read_loop r v = elim (new_loop r v) [
  | ok l ↦ yields (loop_of l)
  | err e ↦ fails (wrapped "invalid loop" e)
]

-- The assertions `expr.(string)` and `out.(string)` are not tested: a request without `out` panics.
abbrev dump_of : Option Value → Option Value → Attempt DumpRequest
dump_of none out = refuse "dump request"
dump_of (some expr) none = panics
dump_of (some expr) (some out) = do
  e ← must_text expr
  o ← must_text out
  yields (record { expr = e; out = o })

abbrev read_dump : Value → Attempt DumpRequest
read_dump (text t) = yields (record { expr = t; out = "" })
read_dump (dict m) = dump_of (get "expr" m) (get "out" m)
read_dump v = refuse "dump request"

-- The client of a step and its request are set together.
pub data Client : Type 0 where
  http db grpc cdp ssh : Client

abbrev pub set_client : Client → String → Fields → Step → Step
set_client Client.http k m step = record step { runner_key = k; http_request = some m }
set_client Client.db k m step = record step { runner_key = k; db_query = some m }
set_client Client.grpc k m step = record step { runner_key = k; grpc_request = some m }
set_client Client.cdp k m step = record step { runner_key = k; cdp_actions = some m }
set_client Client.ssh k m step = record step { runner_key = k; ssh_command = some m }

unfoldable pub if_section : Step × Fields → Attempt (Step × Fields)
unfolding section
if_section p = section "if" (read_text "if condition") (λ t step. record step { if_cond = t }) p

unfoldable pub desc_section : Step × Fields → Attempt (Step × Fields)
unfolding section
desc_section p = section "desc" (read_text "desc") (λ t step. record step { desc = t }) p

unfoldable pub loop_section : LoopReader → Step × Fields → Attempt (Step × Fields)
unfolding section
loop_section r p = section "loop" (read_loop r) (λ l step. record step { loop = some l }) p

unfoldable pub test_section : Step × Fields → Attempt (Step × Fields)
unfolding section
test_section p = section "test" read_test (λ t step. record step { test_cond = some t }) p

unfoldable pub dump_section : Step × Fields → Attempt (Step × Fields)
unfolding section
dump_section p = section "dump" read_dump (λ q step. record step { dump_request = some q }) p

unfoldable pub bind_section : Step × Fields → Attempt (Step × Fields)
unfolding section
bind_section p =
    section "bind" (read_map "bind condition") (λ m step. record step { bind_cond = some m }) p

abbrev pub Pass : Type 0
Pass = Step × Fields → Attempt (Step × Fields)

abbrev pub then_pass : Pass → Pass → Pass
then_pass f g p = f p >>= g

unfoldable pub sections : LoopReader → Step × Fields → Attempt (Step × Fields)
unfolding if_section desc_section loop_section test_section dump_section bind_section
sections r p =
    then_pass if_section
      (then_pass desc_section
        (then_pass (loop_section r) (then_pass test_section (then_pass dump_section bind_section))))
      p

-- What the errors call the request of a client.
abbrev pub request_name : Client → String
request_name Client.http = "http request"
request_name Client.db = "db query"
request_name Client.grpc = "gRPC request"
request_name Client.cdp = "CDP actions"
request_name Client.ssh = "SSH command"

module _ (c : Clients) where
  -- The first kind of clients that knows the name.
  unfoldable pub client_of : String → Option Client
  client_of k =
      if contains c.http k
      then some Client.http
      else if contains c.db k
      then some Client.db
      else if contains c.grpc k
      then some Client.grpc
      else if contains c.cdp k
      then some Client.cdp
      else if contains c.ssh k
      then some Client.ssh
      else none

  -- A client is looked for before the value is tested.
  abbrev pub request_of : Step → String → Value → Attempt Step
  request_of step k v = elim (client_of k) [
    | none ↦ fails (message ("cannot find client: " ++ k))
    | some t ↦ read_map (request_name t) v >>= λ m. yields (set_client t k m step)
  ]

  unfoldable pub set_runner : Step → String → Value → Attempt Step
  unfolding client_of
  set_runner step k v =
      if k == "include"
      then (parse_include_config v >>= λ i.
          yields (record step { runner_key = k; include_config = some i }))
      else if k == "exec"
      then (read_map "exec command" v >>= λ m.
          yields (record step { runner_key = k; exec_command = some m }))
      else request_of step k v

  -- `pop` takes any key that is left; a step should have one at most.
  unfoldable pub pop_runner : Step × Fields → Attempt Step
  unfolding set_runner
  pop_runner (step, end) = yields step
  pop_runner (step, field k v s) = set_runner step k v

  unfoldable pub append_step : LoopReader → String → Fields → List Step → Attempt (List Step)
  unfolding new_step sections pop_runner
  append_step r key s steps = sections r (new_step key, s) >>= λ p.
      pop_runner p >>= λ step. yields (List.◌++◌ steps (step ∷ []))
