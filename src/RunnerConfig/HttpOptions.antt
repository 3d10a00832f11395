-- ===== src/RunnerConfig/HttpOptions.antt =====
-- The options of HTTP runners in runner_option.go.
use runn.Common.{ℕ, String, Bool, Option, none, some}
use runn.Errors.{Error, wrapped, Result, ok, err}
use runn.RunnerConfig.{HttpRunnerConfig, ConfigOption}

unfoldable pub open_api3 : String → ConfigOption HttpRunnerConfig
open_api3 l c = ok (record c { open_api3_doc_location = l })

-- The loader of documents and its validation are another package's.
unfoldable pub open_api3_from_data :
    (String → Result ℕ) → (ℕ → Option Error) → String → ConfigOption HttpRunnerConfig
open_api3_from_data load validate d c = elim (load d) [
  | err e ↦ err e
  | ok doc ↦ elim (validate doc) [
    | some e ↦ err (wrapped "openapi document validation error" e)
    | none ↦ ok (record c { open_api3_doc = some doc })
  ]
]

unfoldable pub skip_validate_request : Bool → ConfigOption HttpRunnerConfig
skip_validate_request skip c = ok (record c { skip_validate_request = skip })

unfoldable pub skip_validate_response : Bool → ConfigOption HttpRunnerConfig
skip_validate_response skip c = ok (record c { skip_validate_response = skip })

unfoldable pub not_follow_redirect : Bool → ConfigOption HttpRunnerConfig
not_follow_redirect nf c = ok (record c { not_follow_redirect = nf })

unfoldable pub multipart_boundary : String → ConfigOption HttpRunnerConfig
multipart_boundary b c = ok (record c { multipart_boundary = b })

unfoldable pub http_ca_cert : String → ConfigOption HttpRunnerConfig
http_ca_cert path c = ok (record c { ca_cert = path })

unfoldable pub http_cert : String → ConfigOption HttpRunnerConfig
http_cert path c = ok (record c { cert = path })

unfoldable pub http_key : String → ConfigOption HttpRunnerConfig
http_key path c = ok (record c { key = path })

unfoldable pub http_skip_verify : Bool → ConfigOption HttpRunnerConfig
http_skip_verify skip c = ok (record c { skip_verify = skip })

unfoldable pub http_timeout : String → ConfigOption HttpRunnerConfig
http_timeout timeout c = ok (record c { timeout = timeout })

unfoldable pub use_cookie : Bool → ConfigOption HttpRunnerConfig
use_cookie cookie c = ok (record c { use_cookie = some cookie })

unfoldable pub http_trace : Bool → ConfigOption HttpRunnerConfig
http_trace trace c =
    ok (record c { trace = record { enable = some trace; header_name = c.trace.header_name } })
