-- ===== src/RunnerConfig/GrpcOptions.antt =====
-- The options of gRPC runners in runner_option.go.
use runn.Common.{String, Bool, some, List, [], ◌∷◌, ◌++◌, if◌then◌else◌}
use runn.CdpFunctions.{contains}
use runn.Errors.{ok}
use runn.RunnerConfig.{GrpcRunnerConfig, ConfigOption}

unfoldable pub tls : Bool → ConfigOption GrpcRunnerConfig
tls use_tls c = ok (record c { tls = some use_tls })

unfoldable pub ca_cert : String → ConfigOption GrpcRunnerConfig
ca_cert path c = ok (record c { ca_cert = path })

unfoldable pub cert : String → ConfigOption GrpcRunnerConfig
cert path c = ok (record c { cert = path })

unfoldable pub key : String → ConfigOption GrpcRunnerConfig
key path c = ok (record c { key = path })

unfoldable pub ca_cert_from_data : String → ConfigOption GrpcRunnerConfig
ca_cert_from_data b c = ok (record c { ca_cert_data = b })

unfoldable pub cert_from_data : String → ConfigOption GrpcRunnerConfig
cert_from_data b c = ok (record c { cert_data = b })

unfoldable pub key_from_data : String → ConfigOption GrpcRunnerConfig
key_from_data b c = ok (record c { key_data = b })

-- `unique` of path.go, with the texts that it has seen.
unfoldable pub unique_after : List String → List String → List String
unique_after seen [] = []
unique_after seen (s ∷ l) =
    let skipped = unique_after seen l in
    let kept = unique_after (s ∷ seen) l in if contains seen s then skipped else s ∷ kept

unfoldable pub unique : List String → List String
unfolding unique_after
unique l = unique_after [] l

unfoldable pub protos : List String → ConfigOption GrpcRunnerConfig
unfolding unique
protos more c = ok (record c { protos = unique (c.protos ++ more) })

unfoldable pub import_paths : List String → ConfigOption GrpcRunnerConfig
unfolding unique
import_paths more c = ok (record c { import_paths = unique (c.import_paths ++ more) })

unfoldable pub grpc_trace : Bool → ConfigOption GrpcRunnerConfig
grpc_trace trace c =
    ok (record c { trace = record { enable = some trace; header_name = c.trace.header_name } })
