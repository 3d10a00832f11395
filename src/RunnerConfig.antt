-- ===== src/RunnerConfig.antt =====
-- runner_option.go: how the runners are configured, by options and by the maps of a runbook. A file
-- or a key that Go holds as bytes is a text.
pub mod HttpOptions
pub mod GrpcOptions
pub mod SshOptions
use runn.Common.{
  ℕ, String, Bool, true, false, Option, none, some, List, [], ◌∷◌, ◌==◌, ◌&&◌, not, if◌then◌else◌,
}
use runn.Common.Int.{ℤ, pos}
use runn.Common.Strings.{trim}
use runn.CdpFunctions.{contains}
use runn.Errors.{Error, message, Result, ok, err}

pub record TraceConfig : Type 0 where
  pub enable : Option Bool
  pub header_name : String

-- `open_api3_doc` is a document that has been loaded, by number.
pub record HttpRunnerConfig : Type 0 where
  pub endpoint : String
  pub open_api3_doc_location : String
  pub skip_validate_request : Bool
  pub skip_validate_response : Bool
  pub not_follow_redirect : Bool
  pub multipart_boundary : String
  pub ca_cert : String
  pub cert : String
  pub key : String
  pub skip_verify : Bool
  pub timeout : String
  pub use_cookie : Option Bool
  pub trace : TraceConfig
  pub open_api3_doc : Option ℕ

-- The fields `cacert`, `cert` and `key`, in lower case, hold what the options give as data.
pub record GrpcRunnerConfig : Type 0 where
  pub addr : String
  pub tls : Option Bool
  pub ca_cert : String
  pub cert : String
  pub key : String
  pub skip_verify : Bool
  pub import_paths : List String
  pub protos : List String
  pub trace : TraceConfig
  pub ca_cert_data : String
  pub cert_data : String
  pub key_data : String

pub record DbRunnerConfig : Type 0 where
  pub dsn : String
  pub trace : Option Bool

pub record SshAnswer : Type 0 where
  pub matched : String
  pub answer : String

pub record SshRunnerConfig : Type 0 where
  pub ssh_config : String
  pub host : String
  pub hostname : String
  pub user : String
  pub port : ℤ
  pub identity_file : String
  pub identity_key : String
  pub keep_session : Bool
  pub local_forward : String
  pub keyboard_interactive : List SshAnswer

-- `func(*config) error`. The callers drop a config whose option has failed.
abbrev pub ConfigOption : Type 0 → Type 0
ConfigOption C = C → Result C

-- The loop over the options.
unfoldable pub configure : {C : Type 0} → List (ConfigOption C) → C → Result C
configure [] c = ok c
configure (o ∷ opts) c = elim (o c) [ err e ↦ err e | ok c' ↦ configure opts c' ]

abbrev pub no_trace : TraceConfig
no_trace = record { enable = none; header_name = "" }

-- `&httpRunnerConfig{}` and its kin.
abbrev pub no_http : HttpRunnerConfig
no_http = record {
  endpoint = "";
  open_api3_doc_location = "";
  skip_validate_request = false;
  skip_validate_response = false;
  not_follow_redirect = false;
  multipart_boundary = "";
  ca_cert = "";
  cert = "";
  key = "";
  skip_verify = false;
  timeout = "";
  use_cookie = none;
  trace = no_trace;
  open_api3_doc = none;
}

abbrev pub no_grpc : GrpcRunnerConfig
no_grpc = record {
  addr = "";
  tls = none;
  ca_cert = "";
  cert = "";
  key = "";
  skip_verify = false;
  import_paths = [];
  protos = [];
  trace = no_trace;
  ca_cert_data = "";
  cert_data = "";
  key_data = "";
}

abbrev pub no_db : DbRunnerConfig
no_db = record { dsn = ""; trace = none }

abbrev pub no_ssh : SshRunnerConfig
no_ssh = record {
  ssh_config = "";
  host = "";
  hostname = "";
  user = "";
  port = pos 0;
  identity_file = "";
  identity_key = "";
  keep_session = false;
  local_forward = "";
  keyboard_interactive = [];
}

-- `validate` of an SSH config.
unfoldable pub validate_ssh : SshRunnerConfig → Option Error
validate_ssh c =
    if c.host == "" && c.hostname == ""
    then some (message "host or hostname is required")
    else if not (c.identity_file == "") && not (c.identity_key == "")
    then some (message "identityFile and identityKey cannot be used at the same time")
    else none

-- `DBTrace`
unfoldable pub db_trace : Bool → ConfigOption DbRunnerConfig
db_trace trace c = ok (record c { trace = some trace })

-- `strconv.ParseBool`
abbrev parse_bool : String → Option Bool
parse_bool t =
    if contains ("1" ∷ "t" ∷ "T" ∷ "TRUE" ∷ "true" ∷ "True" ∷ []) t
    then some true
    else if contains ("0" ∷ "f" ∷ "F" ∷ "FALSE" ∷ "false" ∷ "False" ∷ []) t
    then some false
    else none

-- `UnmarshalYAML` of a trace config: a flag, or the fields, which YAML reads.
unfoldable pub unmarshal_trace :
    (String → Result TraceConfig) → String → TraceConfig → Result TraceConfig
unfolding trim
unmarshal_trace unmarshal b t = elim (parse_bool (trim " \t\n\r" b)) [
  | some enable ↦ ok (record t { enable = some enable })
  | none ↦ elim (unmarshal b) [
    | err e ↦ err e
    | ok s ↦ ok (record { enable = s.enable; header_name = s.header_name })
  ]
]
