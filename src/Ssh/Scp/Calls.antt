-- ===== src/Ssh/Scp/Calls.antt =====
-- src/ssh/scp.rs, `impl RemoteFs for ScpFs`: all the calls of the trait as one type, their results
-- dropped.
pub mod Offline
pub mod Sessions
pub mod Keeps
use remotefs_rs_ssh.Text.{Text}
use remotefs_rs_ssh.Remotefs.{Metadata}
use remotefs_rs_ssh.Exec.{Exec, discard}
use remotefs_rs_ssh.Host.{Host}
use remotefs_rs_ssh.Crates.{Crates}
use remotefs_rs_ssh.Ssh.Scp.Client
use remotefs_rs_ssh.Ssh.Scp.Ops
use remotefs_rs_ssh.Ssh.Scp.Change
use remotefs_rs_ssh.Ssh.Scp.Client.{Scp}

pub data Call (UnixPex : Type 0) : Type 0 where
  connect disconnect pwd : Call UnixPex
  change_dir list_dir stat exists remove_file remove_dir remove_dir_all open_read :
      Text → Call UnixPex
  exec : Text → Call UnixPex
  symlink copy mov : Text → Text → Call UnixPex
  create_dir : Text → UnixPex → Call UnixPex
  setstat append create : Text → Metadata UnixPex → Call UnixPex

module _ (C : Crates) (H : Host) where
  unfoldable pub perform : Call C.UnixPex → Exec (Scp H) (Unit {0})
  perform connect = discard (Client.connect H)
  perform disconnect = Client.disconnect H
  perform pwd = discard (Client.pwd H)
  perform (change_dir p) = discard (Ops.change_dir C H p)
  perform (list_dir p) = discard (Ops.list_dir C H p)
  perform (stat p) = discard (Ops.stat C H p)
  perform (exists p) = discard (Client.exists C H p)
  perform (remove_file p) = Change.remove_file C H p
  perform (remove_dir p) = Change.remove_dir C H p
  perform (remove_dir_all p) = Change.remove_dir_all C H p
  perform (open_read p) = discard (Ops.open_read C H p)
  perform (exec cmd) = discard (Ops.exec C H cmd)
  perform (symlink p target) = Change.symlink C H p target
  perform (copy src dest) = Change.copy C H src dest
  perform (mov src dest) = Change.mov C H src dest
  perform (create_dir p mode) = Change.create_dir C H p mode
  perform (setstat p m) = Change.setstat C H p m
  perform (append p m) = discard (Change.append C H p m)
  perform (create p m) = discard (Change.create C H p m)
