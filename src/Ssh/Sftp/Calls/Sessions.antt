-- ===== src/Ssh/Sftp/Calls/Sessions.antt =====
-- src/ssh/sftp.rs: from `connect` to `disconnect`.
use remotefs_rs_ssh.Prelude.{ℕ, ◌≡◌, none, arith}
use remotefs_rs_ssh.Remotefs.{new, not_connected}
use remotefs_rs_ssh.Exec.{ok, err}
use remotefs_rs_ssh.Foreign.{world_steps}
use remotefs_rs_ssh.Host.{Host}
use remotefs_rs_ssh.Crates.{Crates}
use remotefs_rs_ssh.Ssh.Sftp.Client
use remotefs_rs_ssh.Ssh.Sftp.Client.{SftpState}
use remotefs_rs_ssh.Ssh.Sftp.Calls.{CallOf, perform}
use remotefs_rs_ssh.Ssh.Sftp.Calls.Offline.{NeedsConnection, perform_disconnected}

module _ (C : Crates) (H : Host) where
  disconnect-handles :
      (s : SftpState H)
      → (Client.disconnect H s).0 ≡ ok tt
      → ((Client.disconnect H s).1.client.session ≡ none)
        × ((Client.disconnect H s).1.client.sftp ≡ none)
  unfolding Client.disconnect world_steps
  disconnect-handles s h = (ground arith, ground arith)

  -- After an SFTP `disconnect` that succeeds, every call but `connect` fails with `NotConnected`
  -- and changes nothing.
  pub sftp_perform-disconnect :
      (writes rounds : ℕ) (s : SftpState H) (c : CallOf C H)
      → (Client.disconnect H s).0 ≡ ok tt
      → NeedsConnection c
      → perform C H writes rounds c (Client.disconnect H s).1
        ≡ (err (new not_connected), (Client.disconnect H s).1)
  sftp_perform-disconnect writes rounds s c h needs =
      let d = disconnect-handles s h in
      perform_disconnected C H writes rounds (Client.disconnect H s).1 d.0 d.1 c needs
