-- ===== src/Ssh/Sftp/Client.antt =====
-- src/ssh/sftp.rs: the client's state, the connection and the working directory's name.
use remotefs_rs_ssh.Prelude.{Bool, true, false, Option, none, some}
use remotefs_rs_ssh.Text.{Text, codes}
use remotefs_rs_ssh.Utils.{absolutize}
use remotefs_rs_ssh.Remotefs.{new, new_ex, not_connected, connection_error, protocol_error}
use remotefs_rs_ssh.Exec.{Exec, ok, raise, gets, modify, guard, unwrap, ◌>>=◌, ◌>>◌}
use remotefs_rs_ssh.Foreign.{State, on_world, call}
use remotefs_rs_ssh.Host.{Host}
use remotefs_rs_ssh.Ssh.Opts.{SshOpts}
use remotefs_rs_ssh.Ssh.Commons.Connect.{connect as connect_session}

-- Sftp "filesystem" client
pub record SftpFs (H : Host) : Type 0 where
  pub session : Option H.Session
  pub sftp : Option H.Sftp
  pub wrkdir : Text
  pub opts : SshOpts H.ParseRule

abbrev pub new_client : (H : Host) → SshOpts H.ParseRule → SftpFs H
new_client H opts = record { session = none; sftp = none; wrkdir = codes "/"; opts = opts }

-- `From<SshOpts> for SftpFs`
abbrev pub from_opts : (H : Host) → SshOpts H.ParseRule → SftpFs H
from_opts H opts = new_client H opts

abbrev pub SftpState : Host → Type 0
SftpState H = State (SftpFs H) H.World

module _ (H : Host) where
  open H use {World, Session, Sftp}

  abbrev pub session_live : Option Session → World → Bool
  session_live none w = false
  session_live (some x) w = H.authenticated x w

  unfoldable pub is_connected : Exec (SftpState H) Bool
  is_connected s = (ok (session_live s.client.session s.world), s)

  -- Check connection status
  unfoldable pub check_connection : Exec (SftpState H) (Unit {0})
  check_connection = is_connected >>= λ connected. guard connected (new not_connected)

  abbrev pub absolute : Text → Exec (SftpState H) Text
  absolute path = gets (λ s. absolutize s.client.wrkdir path)

  -- `self.sftp.as_ref().unwrap()`
  abbrev pub sftp_ref : Exec (SftpState H) Sftp
  sftp_ref = gets (λ s. s.client.sftp) >>= unwrap

  -- `if let Some(sftp) = self.sftp.as_ref() { … } else { Err(NotConnected) }`
  abbrev pub given_sftp :
      {A : Type 0} → (Sftp → Exec (SftpState H) A) → Option Sftp → Exec (SftpState H) A
  given_sftp f none = raise (new not_connected)
  given_sftp f (some x) = f x

  abbrev pub with_sftp : {A : Type 0} → (Sftp → Exec (SftpState H) A) → Exec (SftpState H) A
  with_sftp f = gets (λ s. s.client.sftp) >>= given_sftp f

  abbrev pub set_wrkdir : Text → SftpState H → SftpState H
  set_wrkdir d s = record s { client = record (s.client) { wrkdir = d } }

  abbrev pub set_handles : Option Session → Option Sftp → SftpState H → SftpState H
  set_handles x y s = record s { client = record (s.client) { session = x; sftp = y } }

  unfoldable pub connect : Exec (SftpState H) (Option Text)
  connect = do
    opts ← gets (λ s. s.client.opts)
    session ← on_world (connect_session H opts)
    on_world (modify (H.set_blocking session true))
    sftp ← on_world (call (new_ex protocol_error) (H.session_sftp session))
    dir ← on_world (call (new_ex protocol_error) (H.sftp_realpath sftp (codes ".")))
    modify (set_wrkdir dir)
    modify (set_handles (some session) (some sftp))
    gets (λ s. H.banner session s.world)

  abbrev pub disconnect_session : Option Session → Exec (SftpState H) (Unit {0})
  disconnect_session none = raise (new not_connected)
  disconnect_session (some session) = do
    on_world (call (new_ex connection_error) (H.disconnect session))
    modify (set_handles none none)

  unfoldable pub disconnect : Exec (SftpState H) (Unit {0})
  disconnect = gets (λ s. s.client.session) >>= disconnect_session

  unfoldable pub pwd : Exec (SftpState H) Text
  pwd = check_connection >> gets (λ s. s.client.wrkdir)
