-- ===== src/Ssh/Commons/Shell.antt =====
-- src/ssh/commons.rs, shell commands: the output of a command, and its exit code by `echo $?`.
pub mod ExitCode
pub mod Misread
pub mod Run
use remotefs_rs_ssh.Prelude.{ℕ, ◌+◌, Option, none, some, [], ◌++◌}
use remotefs_rs_ssh.Text.{Text, codes, newline, trim, rfind, slice_to, slice_from}
use remotefs_rs_ssh.Text.Number.{parse_u32}
use remotefs_rs_ssh.Remotefs.{RemoteError, new_ex, protocol_error}
use remotefs_rs_ssh.Exec.{Outcome, ok, err, panic, Exec, pure, lift, modify, ◌>>=◌, ◌>>◌}
use remotefs_rs_ssh.Foreign.{call}
use remotefs_rs_ssh.Host.{Host}

abbrev pub no_exit_code : RemoteError
no_exit_code = new_ex protocol_error (codes "Failed to get command exit code")

abbrev pub rc_of : Text → Option ℕ → Outcome (ℕ × Text)
rc_of output (some rc) = ok (rc, output)
rc_of output none = err no_exit_code

-- The two slices at the index of the last newline; a bad index panics.
abbrev pub rc_split : Option Text → Option Text → Outcome (ℕ × Text)
rc_split none rest = panic
rc_split (some front) none = panic
rc_split (some front) (some rest) = rc_of front (parse_u32 (trim rest))

abbrev pub rc_at : Text → Option ℕ → Outcome (ℕ × Text)
rc_at output (some index) = rc_split (slice_to (index + 1) output) (slice_from index output)
rc_at output none = rc_of [] (parse_u32 (trim output))

-- The part of `perform_shell_cmd_with_rc` behind the command. The index is found in the trimmed
-- output and used in the output itself.
unfoldable pub read_rc : Text → Outcome (ℕ × Text)
unfolding trim rfind slice_to slice_from parse_u32
read_rc output = rc_at output (rfind newline (trim output))

module _ (H : Host) where
  open H use {World, Session}

  -- Perform shell command in current SSH session
  unfoldable pub perform_shell_cmd : Session → Text → Exec World Text
  perform_shell_cmd session cmd = do
    channel ←
        call (λ e. new_ex protocol_error (codes "Could not open channel: " ++ e))
          (H.channel_session session)
    call
        (λ e.
          new_ex protocol_error
            (codes "Could not execute command \"" ++ (cmd ++ (codes "\": " ++ e))))
        (H.channel_exec channel cmd)
    output ←
        call (λ e. new_ex protocol_error (codes "Could not read output: " ++ e))
          (H.read_to_string channel)
    modify (H.wait_close channel)
    pure output

  -- Perform shell command and collect return code and output
  unfoldable pub perform_shell_cmd_with_rc : Session → Text → Exec World (ℕ × Text)
  perform_shell_cmd_with_rc session cmd = do
    output ← perform_shell_cmd session (cmd ++ codes "; echo $?")
    lift (read_rc output)

  -- Perform shell command at specified path and return exit code and output
  unfoldable pub perform_shell_cmd_at_with_rc : Session → Text → Text → Exec World (ℕ × Text)
  perform_shell_cmd_at_with_rc session cmd p =
      perform_shell_cmd_with_rc session (codes "cd \"" ++ (p ++ (codes "\"; " ++ cmd)))
