-- ===== src/Ssh/Sftp/Calls/Offline.antt =====
-- src/ssh/sftp.rs with neither a session nor an SFTP channel.
use remotefs_rs_ssh.Prelude.{ℕ, ◌≡◌, none}
use remotefs_rs_ssh.Remotefs.{new, not_connected}
use remotefs_rs_ssh.Exec.{steps, err}
use remotefs_rs_ssh.Host.{Host}
use remotefs_rs_ssh.Crates.{Crates}
use remotefs_rs_ssh.Ssh.Sftp.Client
use remotefs_rs_ssh.Ssh.Sftp.Ops
use remotefs_rs_ssh.Ssh.Sftp.Files
use remotefs_rs_ssh.Ssh.Sftp.Client.{SftpState, check_connection, is_connected}
use remotefs_rs_ssh.Ssh.Sftp.Calls.{Call, CallOf, connect, perform}

abbrev pub NeedsConnection : {UnixPex R W : Type 0} → Call UnixPex R W → Type 0
NeedsConnection connect = ⊥
NeedsConnection _ = Unit

module _ (C : Crates) (H : Host) (writes rounds : ℕ) (s : SftpState H)
    (no_session : s.client.session ≡ none) (no_sftp : s.client.sftp ≡ none) where
  -- With neither a session nor an SFTP channel every SFTP call but `connect` fails with
  -- `NotConnected`, and changes nothing of the client or of the world.
  pub perform_disconnected :
      (c : CallOf C H)
      → NeedsConnection c
      → perform C H writes rounds c s ≡ (err (new not_connected), s)
  unfolding perform steps check_connection is_connected Client.disconnect Client.pwd Ops.change_dir
      Ops.list_dir Ops.stat Ops.exists Ops.exec Ops.setstat Ops.remove_file Ops.remove_dir
      Ops.create_dir Ops.symlink Ops.copy Ops.mov Files.append Files.create Files.open_read
      Files.append_file Files.create_file Files.open_file
  perform_disconnected connect h = elim h [ ]
  perform_disconnected _ h = rw (no_session, no_sftp)
