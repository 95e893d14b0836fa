-- ===== src/Ssh/Sftp/Calls.antt =====
-- src/ssh/sftp.rs, `impl RemoteFs for SftpFs`: all the calls of the trait as one type, their results
-- dropped. The loops of the transfers run on two fuels.
pub mod Offline
pub mod Sessions
pub mod Keeps
pub mod Handles
pub mod History
pub mod Home
use remotefs_rs_ssh.Prelude.{ℕ}
use remotefs_rs_ssh.Text.{Text}
use remotefs_rs_ssh.Remotefs.{Metadata}
use remotefs_rs_ssh.Exec.{Exec, discard}
use remotefs_rs_ssh.Host.{Host}
use remotefs_rs_ssh.Crates.{Crates}
use remotefs_rs_ssh.Ssh.Sftp.Client
use remotefs_rs_ssh.Ssh.Sftp.Ops
use remotefs_rs_ssh.Ssh.Sftp.Files
use remotefs_rs_ssh.Ssh.Sftp.Client.{SftpState}

pub data Call (UnixPex Reader Writer : Type 0) : Type 0 where
  connect disconnect pwd : Call UnixPex Reader Writer
  change_dir list_dir stat exists remove_file remove_dir open_read exec :
      Text → Call UnixPex Reader Writer
  symlink copy mov : Text → Text → Call UnixPex Reader Writer
  create_dir : Text → UnixPex → Call UnixPex Reader Writer
  setstat append create : Text → Metadata UnixPex → Call UnixPex Reader Writer
  append_file create_file : Text → Metadata UnixPex → Reader → Call UnixPex Reader Writer
  open_file : Text → Writer → Call UnixPex Reader Writer

module _ (C : Crates) (H : Host) where
  abbrev pub CallOf : Type 0
  CallOf = Call C.UnixPex H.LocalReader H.LocalWriter

  unfoldable pub perform : ℕ → ℕ → CallOf → Exec (SftpState H) (Unit {0})
  perform writes rounds connect = discard (Client.connect H)
  perform writes rounds disconnect = Client.disconnect H
  perform writes rounds pwd = discard (Client.pwd H)
  perform writes rounds (change_dir p) = discard (Ops.change_dir C H p)
  perform writes rounds (list_dir p) = discard (Ops.list_dir C H p)
  perform writes rounds (stat p) = discard (Ops.stat C H p)
  perform writes rounds (exists p) = discard (Ops.exists C H p)
  perform writes rounds (remove_file p) = Ops.remove_file C H p
  perform writes rounds (remove_dir p) = Ops.remove_dir C H p
  perform writes rounds (open_read p) = discard (Files.open_read C H p)
  perform writes rounds (exec cmd) = discard (Ops.exec C H cmd)
  perform writes rounds (symlink p target) = Ops.symlink C H p target
  perform writes rounds (copy src dest) = Ops.copy C H src dest
  perform writes rounds (mov src dest) = Ops.mov C H src dest
  perform writes rounds (create_dir p mode) = Ops.create_dir C H p mode
  perform writes rounds (setstat p m) = Ops.setstat C H p m
  perform writes rounds (append p m) = discard (Files.append C H p m)
  perform writes rounds (create p m) = discard (Files.create C H p m)
  perform writes rounds (append_file p m r) = discard (Files.append_file C H writes rounds p m r)
  perform writes rounds (create_file p m r) = discard (Files.create_file C H writes rounds p m r)
  perform writes rounds (open_file p w) = discard (Files.open_file C H writes rounds p w)
