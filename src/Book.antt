-- ===== src/Book.antt =====
-- book.go: the settings of a runbook and of a run, which options fill in, with the runners' clients.
pub mod Changes
pub mod Loader
pub mod Clients
pub mod HttpSettings
pub mod OtherSettings
pub mod Parsing
pub mod SetUp
pub mod Merging
pub mod HttpReady
pub mod OtherReady
pub mod Known
pub mod Detected
pub mod AllKnown
pub mod Loading
pub mod Layers
use runn.Common.{
  ℕ, String, Bool, true, false, Option, none, some, List, [], Dict, insert, map, ◌∷◌, if◌then◌else◌,
  ◌==◌,
}
use runn.Common.Int.{ℤ, pos}
use runn.Value.{Value, Fields, end}
use runn.Errors.{Error}
use runn.LoopSection.{LoopSection}

-- `hostRule` of hosts.go.
pub record HostRule : Type 0 where
  pub host : String
  pub rule : String

-- Of `http.Client`, what the code sets, and whether its transport is an `*http.Transport`.
pub record HttpClient : Type 0 where
  pub transport : Bool
  pub timeout : ℤ
  pub follows : Bool

-- `nopValidator` and `openApi3Validator`: the flags and the document.
pub data HttpValidator : Type 0 where
  nop : HttpValidator
  open_api3 : Bool → Bool → ℕ → HttpValidator

-- The client is a pointer, and none without one. The handler is a number.
pub record HttpRunner : Type 0 where
  pub name : String
  pub endpoint : String
  pub client : Option HttpClient
  pub handler : Option ℕ
  pub validator : HttpValidator
  pub multipart_boundary : String
  pub ca_cert : String
  pub cert : String
  pub key : String
  pub skip_verify : Bool
  pub use_cookie : Option Bool
  pub trace : Option Bool
  pub trace_header_name : String

pub record DbRunner : Type 0 where
  pub name : String
  pub dsn : String
  pub client : Option ℕ
  pub host_rules : List HostRule
  pub trace : Option Bool

pub record GrpcRunner : Type 0 where
  pub name : String
  pub target : String
  pub tls : Option Bool
  pub ca_cert : String
  pub cert : String
  pub key : String
  pub skip_verify : Bool
  pub import_paths : List String
  pub protos : List String
  pub cc : Option ℕ
  pub host_rules : List HostRule
  pub trace : Option Bool
  pub trace_header_name : String

-- The options of the browser, without the host rules, by number.
pub record CdpRunner : Type 0 where
  pub name : String
  pub opts : ℕ
  pub host_rules : List HostRule

pub record SshLocalForward : Type 0 where
  pub local : String
  pub remote : String

-- The options of the package sshc that the code passes.
pub data SshcOption : Type 0 where
  clear_config : SshcOption
  config_path hostname user identity_key : String → SshcOption
  port : ℤ → SshcOption
  keyboard : List (String × String) → SshcOption

pub record SshRunner : Type 0 where
  pub name : String
  pub addr : String
  pub client : Option ℕ
  pub keep_session : Bool
  pub local_forward : Option SshLocalForward
  pub opts : List SshcOption
  pub host_rules : List HostRule

-- A function of `BeforeFunc` or `AfterFunc`, by number, and one of `AfterFuncIf`.
pub data Hook : Type 0 where
  always : ℕ → Hook
  if_true : String → ℕ → Hook

-- Go's test helper, pattern, capturers and writers stand by a number.
pub record Book : Type 0 where
  pub desc : String
  pub labels : List String
  pub runners : Fields
  pub vars : Fields
  pub raw_steps : List Fields
  pub host_rules : List HostRule
  pub debug : Bool
  pub if_cond : String
  pub skip_test : Bool
  pub funcs : Fields
  pub step_keys : List String
  pub path : String
  pub http_runners : Dict HttpRunner
  pub db_runners : Dict DbRunner
  pub grpc_runners : Dict GrpcRunner
  pub cdp_runners : Dict CdpRunner
  pub ssh_runners : Dict SshRunner
  pub profile : Bool
  pub interval_str : String
  pub interval : ℤ
  pub loop : Option LoopSection
  pub concurrency : List String
  pub use_map : Bool
  pub t : Option ℕ
  pub included : Bool
  pub force : Bool
  pub trace : Bool
  pub fail_fast : Bool
  pub skip_included : Bool
  pub open_api3_doc_locations : List String
  pub grpc_no_tls : Bool
  pub grpc_protos : List String
  pub grpc_import_paths : List String
  pub run_ids : List String
  pub run_match : Option ℕ
  pub run_labels : List String
  pub run_sample : ℤ
  pub run_shard_index : ℤ
  pub run_shard_n : ℤ
  pub run_shuffle : Bool
  pub run_shuffle_seed : ℤ
  pub run_concurrent : Bool
  pub run_concurrent_max : ℤ
  pub run_random : ℤ
  pub runner_errs : Dict Error
  pub before_funcs : List Hook
  pub after_funcs : List Hook
  pub capturers : List ℕ
  pub stdout : ℕ
  pub stderr : ℕ
  pub load_only : Bool

-- The writers `os.Stdout` and `os.Stderr`.
abbrev pub os_stdout : ℕ
os_stdout = 1

abbrev pub os_stderr : ℕ
os_stderr = 2

unfoldable pub new_book : Book
new_book = record {
  desc = "";
  labels = [];
  runners = end;
  vars = end;
  raw_steps = [];
  host_rules = [];
  debug = false;
  if_cond = "";
  skip_test = false;
  funcs = end;
  step_keys = [];
  path = "";
  http_runners = [];
  db_runners = [];
  grpc_runners = [];
  cdp_runners = [];
  ssh_runners = [];
  profile = false;
  interval_str = "";
  interval = pos 0;
  loop = none;
  concurrency = [];
  use_map = false;
  t = none;
  included = false;
  force = false;
  trace = false;
  fail_fast = false;
  skip_included = false;
  open_api3_doc_locations = [];
  grpc_no_tls = false;
  grpc_protos = [];
  grpc_import_paths = [];
  run_ids = [];
  run_match = none;
  run_labels = [];
  run_sample = pos 0;
  run_shard_index = pos 0;
  run_shard_n = pos 0;
  run_shuffle = false;
  run_shuffle_seed = pos 0;
  run_concurrent = false;
  run_concurrent_max = pos 0;
  run_random = pos 0;
  runner_errs = [];
  before_funcs = [];
  after_funcs = [];
  capturers = [];
  stdout = os_stdout;
  stderr = os_stderr;
  load_only = false;
}
