-- ===== src/RunnerConfig/SshOptions.antt =====
-- The options of SSH runners in runner_option.go.
use runn.Common.{String, Bool}
use runn.Common.Int.{ℤ}
use runn.Errors.{ok}
use runn.RunnerConfig.{SshRunnerConfig, ConfigOption}

unfoldable pub ssh_config : String → ConfigOption SshRunnerConfig
ssh_config p c = ok (record c { ssh_config = p })

unfoldable pub host : String → ConfigOption SshRunnerConfig
host h c = ok (record c { host = h })

unfoldable pub hostname : String → ConfigOption SshRunnerConfig
hostname h c = ok (record c { hostname = h })

unfoldable pub user : String → ConfigOption SshRunnerConfig
user u c = ok (record c { user = u })

unfoldable pub port : ℤ → ConfigOption SshRunnerConfig
port p c = ok (record c { port = p })

unfoldable pub identity_file : String → ConfigOption SshRunnerConfig
identity_file p c = ok (record c { identity_file = p })

unfoldable pub identity_key : String → ConfigOption SshRunnerConfig
identity_key k c = ok (record c { identity_key = k })

unfoldable pub keep_session : Bool → ConfigOption SshRunnerConfig
keep_session enable c = ok (record c { keep_session = enable })

unfoldable pub local_forward : String → ConfigOption SshRunnerConfig
local_forward l c = ok (record c { local_forward = l })
