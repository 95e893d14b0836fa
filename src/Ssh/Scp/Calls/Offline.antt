-- ===== src/Ssh/Scp/Calls/Offline.antt =====
-- src/ssh/scp.rs without a connection.
use remotefs_rs_ssh.Prelude.{◌≡◌, false}
use remotefs_rs_ssh.Remotefs.{new, not_connected}
use remotefs_rs_ssh.Exec.{steps, err}
use remotefs_rs_ssh.Host.{Host}
use remotefs_rs_ssh.Crates.{Crates}
use remotefs_rs_ssh.Ssh.Scp.Client
use remotefs_rs_ssh.Ssh.Scp.Ops
use remotefs_rs_ssh.Ssh.Scp.Change
use remotefs_rs_ssh.Ssh.Scp.Client.{Scp, session_live, check_connection, is_connected}
use remotefs_rs_ssh.Ssh.Scp.Calls.{Call, connect, disconnect, append, perform}

-- The calls that check the connection.
abbrev pub NeedsConnection : {UnixPex : Type 0} → Call UnixPex → Type 0
NeedsConnection connect = ⊥
NeedsConnection disconnect = ⊥
NeedsConnection (append p m) = ⊥
NeedsConnection _ = Unit

module _ (C : Crates) (H : Host) (s : Scp H)
    (dead : session_live H s.client.session s.world ≡ false) where
  check_connection_dead : check_connection H s ≡ (err (new not_connected), s)
  unfolding check_connection is_connected steps
  check_connection_dead = rw dead

  -- Without a live session every SCP call but `connect`, `disconnect` and `append` fails with
  -- `NotConnected`, and changes nothing of the client or of the world.
  pub perform_offline :
      (c : Call C.UnixPex) → NeedsConnection c → perform C H c s ≡ (err (new not_connected), s)
  unfolding perform steps check_connection is_connected Client.pwd Client.exists Ops.change_dir
      Ops.list_dir Ops.stat Ops.exec Ops.open_read Change.setstat Change.remove_file
      Change.remove_dir Change.remove_dir_all Change.create_dir Change.symlink Change.copy
      Change.mov Change.create
  perform_offline connect h = elim h [ ]
  perform_offline disconnect h = elim h [ ]
  perform_offline (append p m) h = elim h [ ]
  perform_offline _ h = rw dead
