-- ===== src/Ssh/Config.antt =====
-- src/ssh/config.rs: how the ssh configuration file and the options make up a configuration.
pub mod Address
use remotefs_rs_ssh.Prelude.{ℕ, ◌*◌, ◌^◌, Option, none, some, [], ◌++◌, unwrap_or}
use remotefs_rs_ssh.Text.{Text, codes}
use remotefs_rs_ssh.Text.Number.{decimal}
use remotefs_rs_ssh.Remotefs.{new_ex, io_error}
use remotefs_rs_ssh.Exec.{Exec, pure, ◌>>=◌}
use remotefs_rs_ssh.Foreign.{call}
use remotefs_rs_ssh.Host.{Host, HostParams}
use remotefs_rs_ssh.Ssh.Opts.{SshOpts}

-- Ssh configuration params
pub record Config : Type 0 where
  pub params : HostParams
  pub host : Text
  pub resolved_host : Text
  pub address : Text
  pub username : Text
  pub connection_timeout : ℕ
  pub connection_attempts : ℕ

-- `Duration::from_secs`
abbrev pub from_secs : ℕ → ℕ
from_secs s = s * 10 ^ 9

module _ {ParseRule : Type 0} (params : HostParams) (opts : SshOpts ParseRule) where
  unfoldable pub resolve_host : Text
  resolve_host = elim params.host_name [ some h ↦ h | none ↦ opts.host ]

  -- Opts.port has priority
  unfoldable pub resolve_port : ℕ
  resolve_port = elim opts.port [ none ↦ unwrap_or params.port 22 | some p ↦ p ]

  unfoldable pub resolve_address : Text
  resolve_address = resolve_host ++ (codes ":" ++ decimal resolve_port)

  unfoldable pub resolve_username : Text
  resolve_username = elim opts.username [ some u ↦ u | none ↦ unwrap_or params.user [] ]

  unfoldable pub resolve_connection_timeout : ℕ
  resolve_connection_timeout = elim opts.connection_timeout [
    | some t ↦ t
    | none ↦ unwrap_or params.connect_timeout (from_secs 30)
  ]

unfoldable pub resolve_connection_attempts : HostParams → ℕ
resolve_connection_attempts params = unwrap_or params.connection_attempts 1

-- Create `Config` from `HostParams` and `SshOpts`
unfoldable pub from_params : {ParseRule : Type 0} → HostParams → SshOpts ParseRule → Config
from_params params opts = record {
  params = params;
  host = opts.host;
  resolved_host = resolve_host params opts;
  address = resolve_address params opts;
  username = resolve_username params opts;
  connection_timeout = resolve_connection_timeout params opts;
  connection_attempts = resolve_connection_attempts params;
}

module _ (H : Host) where
  open H use {World, ParseRule}

  -- Parse config at `p` and get params for `host`
  unfoldable pub parse : Text → Text → ParseRule → Exec World HostParams
  parse p host rules = do
    reader ←
        call (λ e. new_ex io_error (codes "Could not open configuration file: " ++ e))
          (H.config_open p)
    config ←
        call (λ e. new_ex io_error (codes "Could not parse configuration file: " ++ e))
          (H.config_parse reader rules)
    pure (H.config_query config host)

  abbrev pub params_of : SshOpts ParseRule → Option Text → Exec World HostParams
  params_of opts (some p) = parse p opts.host opts.parse_rules
  params_of opts none = pure H.params_default

  -- `TryFrom<&SshOpts> for Config`
  unfoldable pub try_from : SshOpts ParseRule → Exec World Config
  try_from opts = params_of opts opts.config_file >>= λ params. pure (from_params params opts)
