-- ===== src/Cli.antt =====
-- internal/cli: the command lines of loadgen, the master and the worker. Package flag, files and
-- the configuration loader's surroundings are parameters.
pub mod Lists
pub mod Parse
pub mod Master
pub mod Headers
pub mod Arguments
pub mod Roundtrip
use perf_loadgen.Base.{Text}
use perf_loadgen.Config.{ConfigError}
use perf_loadgen.Config.Files.{LoadError}

pub data CliError : Type 0 where
  config_path_missing sources_exclusive bad_flags : CliError
  no_colon empty_key : Text → CliError
  unreadable_payload_dir unreadable_body_file : CliError
  not_loaded : LoadError → CliError
  not_valid : ConfigError → CliError
  value_missing : Text → CliError
