-- ===== src/Ssh/Scp/Ops/RemoteExec.antt =====
-- src/ssh/scp.rs, `exec`.
use remotefs_rs_ssh.Prelude.{ℕ, ◌<◌, ◌^◌, ◌≡◌, true, some, ◌++◌, ◌∷◌, []}
use remotefs_rs_ssh.Text.{Text, newline}
use remotefs_rs_ssh.Text.Number.{decimal}
use remotefs_rs_ssh.Exec.{ok}
use remotefs_rs_ssh.Foreign.{world_steps}
use remotefs_rs_ssh.Host.{Host}
use remotefs_rs_ssh.Crates.{Crates}
use remotefs_rs_ssh.Ssh.Commons.Shell.{perform_shell_cmd}
use remotefs_rs_ssh.Ssh.Commons.Shell.ExitCode.{IsClean}
use remotefs_rs_ssh.Ssh.Commons.Shell.Run.{exec_line, at_with_rc-clean}
use remotefs_rs_ssh.Ssh.Scp.Client.{Scp}
use remotefs_rs_ssh.Ssh.Scp.Ops.{exec}
use remotefs_rs_ssh.Ssh.Scp.Ops.ChangeDir.{check_live}

-- On a live SCP session, where the line that changes to the working directory, runs the command
-- and echoes the exit code prints a clean output and then an exit code below 2^32: `exec` returns
-- that code and that output, and the client is as it was.
pub exec-clean :
    (C : Crates) (H : Host) (x : H.Session) (cmd out : Text) (rc : ℕ) (s : Scp H) (after : H.World)
    → s.client.session ≡ some x
    → H.authenticated x s.world ≡ true
    → perform_shell_cmd H x (exec_line s.client.wrkdir cmd) s.world
      ≡ (ok (out ++ (decimal rc ++ newline ∷ [])), after)
    → IsClean out
    → rc < 2 ^ 32
    → exec C H cmd s ≡ (ok (rc, out), record s { world = after })
unfolding exec world_steps
exec-clean C H x cmd out rc s after there live printed clean fits = rw (
  check_live C H x s there live,
  there,
  at_with_rc-clean H x s.client.wrkdir cmd out rc s.world after clean fits printed,
)
