-- ===== src/Book/Clients.antt =====
-- New clients: `newHTTPRunner` and its kin of http.go, db.go, grpc.go, cdp.go and ssh.go.
use runn.Common.{ℕ, String, true, false, Option, none, some, [], insert, ◌==◌, if◌then◌else◌}
use runn.Common.Int.{pos}
use runn.Errors.{message, Result, ok, err}
use runn.Book.{Book, HttpRunner, DbRunner, GrpcRunner, CdpRunner, SshRunner, nop}
use runn.Book.Loader.{Loader}

-- `bk.httpRunners[name] = r`, and its kin
abbrev pub place_http : Book → String → HttpRunner → Book
place_http bk name r = record bk { http_runners = insert name r bk.http_runners }

abbrev pub place_db : Book → String → DbRunner → Book
place_db bk name r = record bk { db_runners = insert name r bk.db_runners }

abbrev pub place_grpc : Book → String → GrpcRunner → Book
place_grpc bk name r = record bk { grpc_runners = insert name r bk.grpc_runners }

abbrev pub place_cdp : Book → String → CdpRunner → Book
place_cdp bk name r = record bk { cdp_runners = insert name r bk.cdp_runners }

abbrev pub place_ssh : Book → String → SshRunner → Book
place_ssh bk name r = record bk { ssh_runners = insert name r bk.ssh_runners }

-- `defaultTraceHeaderName`, and in lower case.
abbrev pub default_trace_header_name : String
default_trace_header_name = "X-Runn-Trace"

abbrev lower_trace_header_name : String
lower_trace_header_name = "x-runn-trace"

-- With the client's timeout of 30 seconds.
abbrev pub http_with : String → String → HttpRunner
http_with name endpoint = record {
  name = name;
  endpoint = endpoint;
  client = some (record { transport = true; timeout = pos 30_000_000_000; follows = true });
  handler = none;
  validator = nop;
  multipart_boundary = "";
  ca_cert = "";
  cert = "";
  key = "";
  skip_verify = false;
  use_cookie = none;
  trace = none;
  trace_header_name = default_trace_header_name;
}

-- A runner of a handler has no client.
unfoldable pub new_http_runner_with_handler : String → ℕ → Result HttpRunner
new_http_runner_with_handler name h =
    ok (record (http_with name "") { client = none; handler = some h })

abbrev pub grpc_with : String → String → Option ℕ → GrpcRunner
grpc_with name target cc = record {
  name = name;
  target = target;
  tls = none;
  ca_cert = "";
  cert = "";
  key = "";
  skip_verify = false;
  import_paths = [];
  protos = [];
  cc = cc;
  host_rules = [];
  trace = none;
  trace_header_name = default_trace_header_name;
}

unfoldable pub new_grpc_runner : String → String → Result GrpcRunner
new_grpc_runner name target =
    ok (record (grpc_with name target none) { trace_header_name = lower_trace_header_name })

-- `keepSession` is false, so no connection is made.
unfoldable pub new_ssh_runner : String → String → Result SshRunner
new_ssh_runner name addr = ok (record {
  name = name;
  addr = addr;
  client = none;
  keep_session = false;
  local_forward = none;
  opts = [];
  host_rules = [];
})

module _ (w : Loader) where
  unfoldable pub new_http_runner : String → String → Result HttpRunner
  new_http_runner name endpoint = elim (w.parse_url endpoint) [
    | err e ↦ err e
    | ok u ↦ ok (http_with name u)
  ]

  unfoldable pub new_db_runner : String → String → Result DbRunner
  new_db_runner name dsn = elim (w.parse_dsn dsn) [
    | some e ↦ err e
    | none ↦ ok (record { name = name; dsn = dsn; client = none; host_rules = []; trace = none })
  ]

  unfoldable pub new_cdp_runner : String → String → Result CdpRunner
  new_cdp_runner name remote =
      if remote == "new"
      then ok (record { name = name; opts = w.browser_opts; host_rules = [] })
      else err (message "remote connect mode is planned, but not yet implemented")
