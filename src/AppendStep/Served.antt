-- ===== src/AppendStep/Served.antt =====
-- The step that `AppendStep` appends, and the request that it carries.
use Prim.Native.String.{◌++◌}
use mathlib.Core.List
use runn.Common.{
  ℕ, String, ◌≡◌, refl, sym, subst, Bool, true, false, Option, none, some, List, [], ◌∷◌, ◌==◌,
  if◌then◌else◌, is_some, ◌+◌, ◌≤◌, arith,
}
use runn.Value.{Value, Fields, end, field}
use runn.Errors.{message}
use runn.Bind.{fails, yields, ◌>>=◌}
use runn.Operator.{Step, IncludeConfig}
use runn.CdpFunctions.{contains}
use runn.LoopSection.{LoopReader}
use runn.Parse.Command.{parse_include_config}
use runn.Parse.Requests.{yields-bind, yields_injective}
use runn.AppendStep.{
  Clients, new_step, read_map, Client, set_client, client_of, request_of, set_runner, request_name,
  pop_runner, sections, append_step,
}
use runn.AppendStep.Passes.{IsBlank, new_step-IsBlank, sections-IsBlank}

abbrev pub one_if : Bool → ℕ
one_if true = 1
one_if false = 0

-- The requests that a step carries.
abbrev pub requests : Step → ℕ
requests step =
    one_if (is_some step.http_request)
    + one_if (is_some step.db_query)
    + one_if (is_some step.grpc_request)
    + one_if (is_some step.cdp_actions)
    + one_if (is_some step.ssh_command)
    + one_if (is_some step.exec_command)
    + one_if (is_some step.include_config)

-- A step carries one request at most, and its client is one that the operator holds.
pub record IsServed (c : Clients) (key : String) (step : Step) : Type 0 where
  pub keyed : step.key ≡ key
  pub single : requests step ≤ 1
  pub by_http : is_some step.http_request ≡ true → contains c.http step.runner_key ≡ true
  pub by_db : is_some step.db_query ≡ true → contains c.db step.runner_key ≡ true
  pub by_grpc : is_some step.grpc_request ≡ true → contains c.grpc step.runner_key ≡ true
  pub by_cdp : is_some step.cdp_actions ≡ true → contains c.cdp step.runner_key ≡ true
  pub by_ssh : is_some step.ssh_command ≡ true → contains c.ssh step.runner_key ≡ true

module _ (key : String) (c : Clients) where
  abbrev names : Client → List String
  names Client.http = c.http
  names Client.db = c.db
  names Client.grpc = c.grpc
  names Client.cdp = c.cdp
  names Client.ssh = c.ssh

  client_of-known : (k : String) (t : Client) → client_of c k ≡ some t → contains (names t) k ≡ true
  unfolding client_of
  client_of-known k Client.http h = ground arith
  client_of-known k Client.db h = ground arith
  client_of-known k Client.grpc h = ground arith
  client_of-known k Client.cdp h = ground arith
  client_of-known k Client.ssh h = ground arith

  blank-IsServed : (step : Step) → IsBlank key step → IsServed c key step
  blank-IsServed step (e, h, d, g, a, s, x, i) = record {
    keyed = e;
    single = rw (h, d, g, a, s, x, i) (omega arith);
    by_http = λ f. absurd (cc);
    by_db = λ f. absurd (cc);
    by_grpc = λ f. absurd (cc);
    by_cdp = λ f. absurd (cc);
    by_ssh = λ f. absurd (cc);
  }

  set_client-IsServed :
      (k : String) (t : Client) (m : Fields) (step : Step)
      → client_of c k ≡ some t
      → IsBlank key step
      → IsServed c key (set_client t k m step)
  set_client-IsServed k Client.http m step f (e, h, d, g, a, s, x, i) = record {
    keyed = e;
    single = rw (d, g, a, s, x, i) (omega arith);
    by_http = λ _. client_of-known k Client.http f;
    by_db = λ f. absurd (cc);
    by_grpc = λ f. absurd (cc);
    by_cdp = λ f. absurd (cc);
    by_ssh = λ f. absurd (cc);
  }
  set_client-IsServed k Client.db m step f (e, h, d, g, a, s, x, i) = record {
    keyed = e;
    single = rw (h, g, a, s, x, i) (omega arith);
    by_http = λ f. absurd (cc);
    by_db = λ _. client_of-known k Client.db f;
    by_grpc = λ f. absurd (cc);
    by_cdp = λ f. absurd (cc);
    by_ssh = λ f. absurd (cc);
  }
  set_client-IsServed k Client.grpc m step f (e, h, d, g, a, s, x, i) = record {
    keyed = e;
    single = rw (h, d, a, s, x, i) (omega arith);
    by_http = λ f. absurd (cc);
    by_db = λ f. absurd (cc);
    by_grpc = λ _. client_of-known k Client.grpc f;
    by_cdp = λ f. absurd (cc);
    by_ssh = λ f. absurd (cc);
  }
  set_client-IsServed k Client.cdp m step f (e, h, d, g, a, s, x, i) = record {
    keyed = e;
    single = rw (h, d, g, s, x, i) (omega arith);
    by_http = λ f. absurd (cc);
    by_db = λ f. absurd (cc);
    by_grpc = λ f. absurd (cc);
    by_cdp = λ _. client_of-known k Client.cdp f;
    by_ssh = λ f. absurd (cc);
  }
  set_client-IsServed k Client.ssh m step f (e, h, d, g, a, s, x, i) = record {
    keyed = e;
    single = rw (h, d, g, a, x, i) (omega arith);
    by_http = λ f. absurd (cc);
    by_db = λ f. absurd (cc);
    by_grpc = λ f. absurd (cc);
    by_cdp = λ f. absurd (cc);
    by_ssh = λ _. client_of-known k Client.ssh f;
  }

  exec-IsServed :
      (k : String) (m : Fields) (step : Step)
      → IsBlank key step
      → IsServed c key (record step { runner_key = k; exec_command = some m })
  exec-IsServed k m step (e, h, d, g, a, s, x, i) = record {
    keyed = e;
    single = rw (h, d, g, a, s, i) (omega arith);
    by_http = λ f. absurd (cc);
    by_db = λ f. absurd (cc);
    by_grpc = λ f. absurd (cc);
    by_cdp = λ f. absurd (cc);
    by_ssh = λ f. absurd (cc);
  }

  include-IsServed :
      (k : String) (n : IncludeConfig) (step : Step)
      → IsBlank key step
      → IsServed c key (record step { runner_key = k; include_config = some n })
  include-IsServed k n step (e, h, d, g, a, s, x, i) = record {
    keyed = e;
    single = rw (h, d, g, a, s, x) (omega arith);
    by_http = λ f. absurd (cc);
    by_db = λ f. absurd (cc);
    by_grpc = λ f. absurd (cc);
    by_cdp = λ f. absurd (cc);
    by_ssh = λ f. absurd (cc);
  }

  request_of-IsServed :
      (step : Step) (k : String) (v : Value) (step' : Step)
      → IsBlank key step
      → request_of c step k v ≡ yields step'
      → IsServed c key step'
  request_of-IsServed step k v step' b h = by_client (client_of c k) refl h
    where
      by_client :
          (o : Option Client)
          → client_of c k ≡ o
          → elim o [
            | none ↦ fails (message ("cannot find client: " ++ k))
            | some t ↦ read_map (request_name t) v >>= λ m. yields (set_client t k m step)
          ]
            ≡ yields step'
          → IsServed c key step'
      by_client none f h = absurd (cc)
      by_client (some t) f h =
          let (m, _, same) = yields-bind (read_map (request_name t) v) _ step' h in
          subst (IsServed c key) (yields_injective same) (set_client-IsServed k t m step f b)

  set_runner-IsServed :
      (step : Step) (k : String) (v : Value) (step' : Step)
      → IsBlank key step
      → set_runner c step k v ≡ yields step'
      → IsServed c key step'
  unfolding set_runner
  set_runner-IsServed step k v step' b h = by_key (k == "include") (k == "exec") h
    where
      by_key :
          (is_include is_exec : Bool)
          → (if is_include
              then (parse_include_config v >>= λ i.
                  yields (record step { runner_key = k; include_config = some i }))
              else if is_exec
              then (read_map "exec command" v >>= λ m.
                  yields (record step { runner_key = k; exec_command = some m }))
              else request_of c step k v)
            ≡ yields step'
          → IsServed c key step'
      by_key true x h =
          let (n, _, same) = yields-bind (parse_include_config v) _ step' h in
          subst (IsServed c key) (yields_injective same) (include-IsServed k n step b)
      by_key false true h =
          let (m, _, same) = yields-bind (read_map "exec command" v) _ step' h in
          subst (IsServed c key) (yields_injective same) (exec-IsServed k m step b)
      by_key false false h = request_of-IsServed step k v step' b h

  pop_runner-IsServed :
      (p : Step × Fields) (step : Step)
      → IsBlank key p.0
      → pop_runner c p ≡ yields step
      → IsServed c key step
  unfolding pop_runner
  pop_runner-IsServed (blank, end) step b h =
      subst (IsServed c key) (yields_injective h) (blank-IsServed blank b)
  pop_runner-IsServed (blank, field k v s) step b h = set_runner-IsServed blank k v step b h

-- When `AppendStep` succeeds, it has appended one step with the key it is given: the step carries one
-- request at most, and the runner key of a request to a client is the name of a client of that kind
-- that the operator holds.
pub append_step-IsServed :
    (c : Clients) (r : LoopReader) (key : String) (s : Fields) (steps steps' : List Step)
    → append_step c r key s steps ≡ yields steps'
    → (step : Step) × (steps' ≡ List.◌++◌ steps (step ∷ [])) × IsServed c key step
unfolding append_step
append_step-IsServed c r key s steps steps' h =
    let (p, passed, h₁) = yields-bind (sections r (new_step key, s)) _ steps' h in
    let (step, popped, same) = yields-bind (pop_runner c p) _ steps' h₁ in
    let blank = sections-IsBlank key r (new_step key, s) p passed (new_step-IsBlank key) in
    (step, sym (yields_injective same), pop_runner-IsServed key c p step blank popped)
