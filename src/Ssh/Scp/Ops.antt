-- ===== src/Ssh/Scp/Ops.antt =====
-- src/ssh/scp.rs: the operations that read the remote file system.
pub mod ChangeDir
pub mod RemoteExec
pub mod ListDir
pub mod Stat
pub mod Root
use remotefs_rs_ssh.Prelude.{ℕ, Bool, true, false, Option, none, some, List, ◌++◌, if◌then◌else◌}
use remotefs_rs_ssh.Text.{quoted, Text, codes, trim, starts_with, slice_from, lines}
use remotefs_rs_ssh.FilePath.{parent}
use remotefs_rs_ssh.Remotefs.{
  File, new, new_ex, no_such_file_or_directory, protocol_error, stat_failed, could_not_open_file,
}
use remotefs_rs_ssh.Exec.{
  Exec, pure, raise, panics, gets, modify, handle, guard, unwrap, ◌>>=◌, ◌>>◌,
}
use remotefs_rs_ssh.Foreign.{on_world, call}
use remotefs_rs_ssh.Host.{Host}
use remotefs_rs_ssh.Crates.{Crates}
use remotefs_rs_ssh.Ssh.Commons.Shell.{perform_shell_cmd_at_with_rc}
use remotefs_rs_ssh.Ssh.Scp.Listing.{
  Listed, listed, ignored, panicked, parse_ls_output, collect_entries,
}
use remotefs_rs_ssh.Ssh.Scp.Client.{
  Scp, check_connection, session_mut, absolute, run, set_wrkdir, is_directory, exists_or_false,
}

module _ (C : Crates) (H : Host) where
  open C use {UnixPex}

  -- The output of `cd`: the exit code, then the new directory.
  abbrev pub enter_dir : Text → Text → Exec (Scp H) Text
  enter_dir dir output =
      if starts_with output (codes "0")
      then (do
        rest ← unwrap (slice_from 1 output)
        modify (set_wrkdir H (trim rest))
        gets (λ s. s.client.wrkdir))
      else raise (new_ex no_such_file_or_directory (quoted dir))

  unfoldable pub change_dir : Text → Exec (Scp H) Text
  change_dir dir = do
    check_connection H
    dir' ← absolute H dir
    handle (run H (codes "cd " ++ (quoted dir' ++ codes "; echo $?; pwd")))
        (λ output. enter_dir dir' (trim output))
        (λ e. raise (new_ex protocol_error (C.display_error e)))

  abbrev pub entries_of : Listed (List (File UnixPex)) → Exec (Scp H) (List (File UnixPex))
  entries_of (listed entries) = pure entries
  entries_of ignored = pure List.[]
  entries_of panicked = panics

  unfoldable pub list_dir : Text → Exec (Scp H) (List (File UnixPex))
  list_dir path = do
    check_connection H
    path' ← absolute H path
    found ← exists_or_false C H path'
    guard found (new no_such_file_or_directory)
    handle (run H (codes "unset LANG; ls -la \"" ++ (path' ++ codes "/\"")))
        (λ output. gets (λ s. H.this_year s.world) >>= λ year.
          entries_of (collect_entries C path' year (lines output)))
        (λ e. raise (new_ex protocol_error (C.display_error e)))

  abbrev pub file_of : Listed (File UnixPex) → Exec (Scp H) (File UnixPex)
  file_of (listed f) = pure f
  file_of ignored = raise (new no_such_file_or_directory)
  file_of panicked = panics

  abbrev pub stat_line : Option Text → Text → Exec (Scp H) (File UnixPex)
  stat_line none line = raise (new_ex stat_failed (codes "Path has no parent"))
  stat_line (some p) line =
      gets (λ s. H.this_year s.world) >>= λ year. file_of (parse_ls_output C p (trim line) year)

  -- make command; Directories require `-d` option
  abbrev pub stat_command : Bool → Text → Text
  stat_command true path = codes "ls -ld " ++ quoted path
  stat_command false path = codes "ls -l " ++ quoted path

  unfoldable pub stat : Text → Exec (Scp H) (File UnixPex)
  stat path = do
    check_connection H
    path' ← absolute H path
    dir ← is_directory C H path'
    handle (run H (stat_command dir path')) (stat_line (parent path'))
        (λ e. raise (new_ex protocol_error (C.display_error e)))

  unfoldable pub exec : Text → Exec (Scp H) (ℕ × Text)
  exec cmd = do
    check_connection H
    session ← session_mut H
    dir ← gets (λ s. s.client.wrkdir)
    on_world (perform_shell_cmd_at_with_rc H session cmd dir)

  unfoldable pub open_read : Text → Exec (Scp H) H.Channel
  open_read path = do
    check_connection H
    path' ← absolute H path
    found ← exists_or_false C H path'
    guard found (new no_such_file_or_directory)
    session ← session_mut H
    on_world (modify (H.set_blocking session true))
    on_world (call (new_ex could_not_open_file) (H.scp_recv session path'))
