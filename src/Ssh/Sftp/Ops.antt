-- ===== src/Ssh/Sftp/Ops.antt =====
-- src/ssh/sftp.rs: the operations on the tree of files.
pub mod Existence
pub mod ListDir
use remotefs_rs_ssh.Prelude.{ℕ, Bool, true, false, not, List, ◌++◌, ◌==◌, if◌then◌else◌}
use remotefs_rs_ssh.Text.{Text, codes, quoted}
use remotefs_rs_ssh.Remotefs.{
  File, Metadata, RemoteError, RemoteErrorType, is_dir, new, new_ex, bad_file,
  no_such_file_or_directory, stat_failed, could_not_remove_file, directory_already_exists,
  file_create_denied, protocol_error,
}
use remotefs_rs_ssh.Exec.{
  Exec, pure, raise, gets, modify, handle, guard, unwrap, ok_or, ◌>>=◌, ◌>>◌,
}
use remotefs_rs_ssh.Foreign.{on_world, call}
use remotefs_rs_ssh.Host.{Host}
use remotefs_rs_ssh.Crates.{Crates}
use remotefs_rs_ssh.Ssh.Commons.Shell.{perform_shell_cmd_with_rc, perform_shell_cmd_at_with_rc}
use remotefs_rs_ssh.Ssh.Sftp.Client.{
  SftpState, check_connection, absolute, sftp_ref, with_sftp, set_wrkdir,
}
use remotefs_rs_ssh.Ssh.Sftp.Entry.{metadata_to_filestat, make_fsentry, make_fsentries}

module _ (C : Crates) (H : Host) where
  open C use {UnixPex}

  unfoldable pub list_dir : Text → Exec (SftpState H) (List (File UnixPex))
  list_dir path = with_sftp H λ x. do
    path' ← absolute H path
    files ← on_world (call (new_ex stat_failed) (H.sftp_readdir x path'))
    make_fsentries C H files

  unfoldable pub stat : Text → Exec (SftpState H) (File UnixPex)
  stat path = with_sftp H λ x. do
    path' ← absolute H path
    attributes ← on_world (call (new_ex no_such_file_or_directory) (H.sftp_stat x path'))
    make_fsentry C H path' attributes

  abbrev pub enter_dir : Text → File UnixPex → Exec (SftpState H) Text
  enter_dir dir f =
      if is_dir f
      then (modify (set_wrkdir H dir) >> gets (λ s. s.client.wrkdir))
      else raise (new_ex bad_file (codes "expected directory, got file"))

  unfoldable pub change_dir : Text → Exec (SftpState H) Text
  change_dir dir = do check_connection H; dir' ← absolute H dir; f ← stat dir'; enter_dir dir' f

  unfoldable pub setstat : Text → Metadata UnixPex → Exec (SftpState H) (Unit {0})
  setstat path metadata = with_sftp H λ x. do
    path' ← absolute H path
    on_world (call (new_ex stat_failed) (H.sftp_setstat x path' (metadata_to_filestat C metadata)))

  -- Only the error of a missing file means that the file does not exist.
  abbrev pub missing : RemoteErrorType → RemoteError → Exec (SftpState H) Bool
  missing no_such_file_or_directory e = pure false
  missing _ e = raise e

  unfoldable pub exists : Text → Exec (SftpState H) Bool
  exists path = handle (stat path) (λ _. pure true) (λ e. missing e.kind e)

  abbrev pub exists_or_false : Text → Exec (SftpState H) Bool
  exists_or_false path = ok_or false (exists path)

  unfoldable pub remove_file : Text → Exec (SftpState H) (Unit {0})
  remove_file path = with_sftp H λ x. do
    path' ← absolute H path
    on_world (call (new_ex could_not_remove_file) (H.sftp_unlink x path'))

  unfoldable pub remove_dir : Text → Exec (SftpState H) (Unit {0})
  remove_dir path = with_sftp H λ x. do
    path' ← absolute H path
    on_world (call (new_ex could_not_remove_file) (H.sftp_rmdir x path'))

  unfoldable pub create_dir : Text → UnixPex → Exec (SftpState H) (Unit {0})
  create_dir path mode = do
    check_connection H
    path' ← absolute H path
    found ← exists path'
    guard (not found) (new directory_already_exists)
    x ← sftp_ref H
    on_world (call (new_ex file_create_denied) (H.sftp_mkdir x path' (C.pex_bits mode)))

  unfoldable pub symlink : Text → Text → Exec (SftpState H) (Unit {0})
  symlink path target = do
    check_connection H
    path' ← absolute H path
    found ← exists target
    guard found (new no_such_file_or_directory)
    x ← sftp_ref H
    on_world (call (new_ex file_create_denied) (H.sftp_symlink x target path'))

  unfoldable pub copy : Text → Text → Exec (SftpState H) (Unit {0})
  copy src dest = do
    check_connection H
    src' ← absolute H src
    found ← exists_or_false src'
    guard found (new no_such_file_or_directory)
    dest' ← absolute H dest
    session ← gets (λ s. s.client.session) >>= unwrap
    handle
        (on_world (
          perform_shell_cmd_with_rc H session
            (codes "cp -rf " ++ (quoted src' ++ (codes " " ++ quoted dest')))))
        (λ r. if r.0 == 0 then pure tt else raise (new_ex file_create_denied (quoted dest')))
        (λ e. raise (new_ex protocol_error (C.display_error e)))

  unfoldable pub mov : Text → Text → Exec (SftpState H) (Unit {0})
  mov src dest = do
    check_connection H
    src' ← absolute H src
    found ← exists_or_false src'
    guard found (new no_such_file_or_directory)
    dest' ← absolute H dest
    x ← sftp_ref H
    on_world (call (new_ex file_create_denied) (H.sftp_rename_overwrite x src' dest'))

  unfoldable pub exec : Text → Exec (SftpState H) (ℕ × Text)
  exec cmd = do
    check_connection H
    session ← gets (λ s. s.client.session) >>= unwrap
    dir ← gets (λ s. s.client.wrkdir)
    on_world (perform_shell_cmd_at_with_rc H session cmd dir)
