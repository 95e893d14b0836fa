-- ===== src/Ssh/Commons/Shell/Run.antt =====
-- src/ssh/scp.rs and src/ssh/sftp.rs, `exec`: the exit code and the output of a command.
use remotefs_rs_ssh.Prelude.{ℕ, ◌<◌, ◌^◌, ◌≡◌, ◌++◌, ◌∷◌, []}
use remotefs_rs_ssh.Text.{Text, codes, newline}
use remotefs_rs_ssh.Text.Number.{decimal}
use remotefs_rs_ssh.Exec.{ok}
use remotefs_rs_ssh.Foreign.{world_steps}
use remotefs_rs_ssh.Host.{Host}
use remotefs_rs_ssh.Ssh.Commons.Shell.{
  perform_shell_cmd, perform_shell_cmd_with_rc, perform_shell_cmd_at_with_rc,
}
use remotefs_rs_ssh.Ssh.Commons.Shell.ExitCode.{IsClean, read_rc-clean}

-- The line that `exec` sends from a working directory.
abbrev pub exec_line : Text → Text → Text
exec_line dir cmd = (codes "cd \"" ++ (dir ++ (codes "\"; " ++ cmd))) ++ codes "; echo $?"

module _ (H : Host) (x : H.Session) (dir cmd out : Text) (rc : ℕ) (w after : H.World)
    (clean : IsClean out) (fits : rc < 2 ^ 32)
    (printed : perform_shell_cmd H x (exec_line dir cmd) w
      ≡ (ok (out ++ (decimal rc ++ newline ∷ [])), after)) where
  -- Where the line of a command prints a clean output and then an exit code below 2 ^ 32, that code and
  -- that output are returned.
  pub at_with_rc-clean : perform_shell_cmd_at_with_rc H x cmd dir w ≡ (ok (rc, out), after)
  unfolding perform_shell_cmd_at_with_rc perform_shell_cmd_with_rc world_steps
  at_with_rc-clean = rw (printed, read_rc-clean out rc clean fits)
