-- ===== src/Ssh/Scp/Client.antt =====
-- src/ssh/scp.rs: the client's state, the connection check and the commands of one session.
use remotefs_rs_ssh.Prelude.{ℕ, Bool, false, Option, none, some, ◌++◌, ◌==◌, if◌then◌else◌}
use remotefs_rs_ssh.Text.{Text, codes, trim, quoted}
use remotefs_rs_ssh.Utils.{absolutize}
use remotefs_rs_ssh.Remotefs.{
  RemoteError, RemoteErrorType, new, new_ex, not_connected, connection_error, protocol_error,
  stat_failed,
}
use remotefs_rs_ssh.Exec.{
  Exec, ok, pure, raise, gets, modify, handle, guard, unwrap, ok_or, ◌>>=◌, ◌>>◌,
}
use remotefs_rs_ssh.Foreign.{State, on_world, call}
use remotefs_rs_ssh.Host.{Host}
use remotefs_rs_ssh.Crates.{Crates}
use remotefs_rs_ssh.Ssh.Opts.{SshOpts}
use remotefs_rs_ssh.Ssh.Commons.Connect.{connect as connect_session}
use remotefs_rs_ssh.Ssh.Commons.Shell.{perform_shell_cmd, perform_shell_cmd_with_rc}

-- SCP "filesystem" client
pub record ScpFs (H : Host) : Type 0 where
  pub session : Option H.Session
  pub wrkdir : Text
  pub opts : SshOpts H.ParseRule

abbrev pub new_client : (H : Host) → SshOpts H.ParseRule → ScpFs H
new_client H opts = record { session = none; wrkdir = codes "/"; opts = opts }

-- `From<SshOpts> for ScpFs`
abbrev pub from_opts : (H : Host) → SshOpts H.ParseRule → ScpFs H
from_opts H opts = new_client H opts

abbrev pub Scp : Host → Type 0
Scp H = State (ScpFs H) H.World

module _ (H : Host) where
  open H use {World, Session}

  abbrev pub session_live : Option Session → World → Bool
  session_live none w = false
  session_live (some x) w = H.authenticated x w

  unfoldable pub is_connected : Exec (Scp H) Bool
  is_connected s = (ok (session_live s.client.session s.world), s)

  -- Check connection status
  unfoldable pub check_connection : Exec (Scp H) (Unit {0})
  check_connection = is_connected >>= λ connected. guard connected (new not_connected)

  -- `self.session.as_mut().unwrap()`
  abbrev pub session_mut : Exec (Scp H) Session
  session_mut = gets (λ s. s.client.session) >>= unwrap

  -- `path_utils::absolutize(self.wrkdir.as_path(), path)`
  abbrev pub absolute : Text → Exec (Scp H) Text
  absolute path = gets (λ s. absolutize s.client.wrkdir path)

  abbrev pub run : Text → Exec (Scp H) Text
  run cmd = session_mut >>= λ x. on_world (perform_shell_cmd H x cmd)

  abbrev pub run_with_rc : Text → Exec (Scp H) (ℕ × Text)
  run_with_rc cmd = session_mut >>= λ x. on_world (perform_shell_cmd_with_rc H x cmd)

  abbrev pub set_wrkdir : Text → Scp H → Scp H
  set_wrkdir d s = record s { client = record (s.client) { wrkdir = d } }

  abbrev pub set_session : Option Session → Scp H → Scp H
  set_session x s = record s { client = record (s.client) { session = x } }

module _ (C : Crates) (H : Host) where
  -- `match … { Ok((0, _)) => Ok(()), Ok(_) => Err(status), Err(err) => Err(new_ex(kind, err)) }`
  abbrev pub expect_zero : Text → RemoteError → RemoteErrorType → Exec (Scp H) (Unit {0})
  expect_zero cmd status kind =
      handle (run_with_rc H cmd) (λ r. if r.0 == 0 then pure tt else raise status)
        (λ e. raise (new_ex kind (C.display_error e)))

  -- `match … { Ok((0, _)) => Ok(true), Ok(_) => Ok(false), Err(err) => Err(StatFailed) }`
  abbrev pub test_zero : Text → Exec (Scp H) Bool
  test_zero cmd =
      handle (run_with_rc H cmd) (λ r. pure (r.0 == 0))
        (λ e. raise (new_ex stat_failed (C.display_error e)))

  -- Execute setstat command and assert result is 0
  unfoldable pub assert_stat_command : Text → Exec (Scp H) (Unit {0})
  assert_stat_command cmd = expect_zero cmd (new stat_failed) protocol_error

  -- Returns whether file at `path` is a directory
  unfoldable pub is_directory : Text → Exec (Scp H) Bool
  is_directory path = absolute H path >>= λ path'. test_zero (codes "test -d " ++ quoted path')

  unfoldable pub exists : Text → Exec (Scp H) Bool
  exists path = do
    check_connection H
    path' ← absolute H path
    test_zero (codes "test -e " ++ quoted path')

  -- `self.exists(path).ok().unwrap_or(false)`
  abbrev pub exists_or_false : Text → Exec (Scp H) Bool
  exists_or_false path = ok_or false (exists path)

module _ (H : Host) where
  unfoldable pub connect : Exec (Scp H) (Option Text)
  connect = do
    opts ← gets (λ s. s.client.opts)
    session ← on_world (connect_session H opts)
    banner ← gets (λ s. H.banner session s.world)
    output ← on_world (perform_shell_cmd H session (codes "pwd"))
    modify (set_wrkdir H (trim output))
    modify (set_session H (some session))
    pure banner

  abbrev pub disconnect_session : Option H.Session → Exec (Scp H) (Unit {0})
  disconnect_session none = raise (new not_connected)
  disconnect_session (some session) = do
    on_world (call (new_ex connection_error) (H.disconnect session))
    modify (set_session H none)

  unfoldable pub disconnect : Exec (Scp H) (Unit {0})
  disconnect = gets (λ s. s.client.session) >>= disconnect_session

  unfoldable pub pwd : Exec (Scp H) Text
  pwd = check_connection H >> gets (λ s. s.client.wrkdir)
