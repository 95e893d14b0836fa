-- ===== src/Ssh/Scp/Change.antt =====
-- src/ssh/scp.rs: the operations that change the remote file system.
use remotefs_rs_ssh.Prelude.{ℕ, true, not, Option, none, some, [], ◌++◌, unwrap_or, option_map}
use remotefs_rs_ssh.Text.{quoted, Text, codes}
use remotefs_rs_ssh.Text.Number.{decimal, octal}
use remotefs_rs_ssh.Remotefs.{
  Metadata, SystemTime, unix_epoch, secs_since_epoch, new, new_ex, no_such_file_or_directory,
  protocol_error, could_not_remove_file, directory_not_empty, directory_already_exists,
  file_create_denied, unsupported_feature,
}
use remotefs_rs_ssh.Exec.{Exec, pure, raise, modify, guard, ◌>>=◌, ◌>>◌}
use remotefs_rs_ssh.Foreign.{on_world, call}
use remotefs_rs_ssh.Host.{Host}
use remotefs_rs_ssh.Crates.{Crates}
use remotefs_rs_ssh.Utils.{fmt_time_utc}
use remotefs_rs_ssh.Ssh.Scp.Client.{
  Scp, check_connection, session_mut, absolute, expect_zero, assert_stat_command, exists_or_false,
}

module _ (C : Crates) (H : Host) where
  open C use {UnixPex}

  abbrev pub set_mode : Text → Option UnixPex → Exec (Scp H) (Unit {0})
  set_mode path none = pure tt
  set_mode path (some mode) =
      assert_stat_command C H
        (codes "chmod " ++ (octal (C.pex_bits mode) ++ (codes " " ++ quoted path)))

  abbrev pub group_suffix : Option ℕ → Text
  group_suffix none = []
  group_suffix (some gid) = codes ":" ++ decimal gid

  -- The group is set only together with the user.
  abbrev pub set_owner : Text → Option ℕ → Option ℕ → Exec (Scp H) (Unit {0})
  set_owner path none gid = pure tt
  set_owner path (some user) gid =
      assert_stat_command C H
        (codes "chown " ++ (decimal user ++ (group_suffix gid ++ (codes " " ++ quoted path))))

  abbrev pub set_time : Text → Text → Option SystemTime → Exec (Scp H) (Unit {0})
  set_time flag path none = pure tt
  set_time flag path (some time) = assert_stat_command C H (
      codes "touch "
      ++ (flag
          ++ (codes " -t "
              ++ (fmt_time_utc C time (codes "%Y%m%d%H%M.%S") ++ (codes " " ++ quoted path)))))

  unfoldable pub setstat : Text → Metadata UnixPex → Exec (Scp H) (Unit {0})
  setstat path metadata = do
    check_connection H
    path' ← absolute H path
    found ← exists_or_false C H path'
    guard found (new no_such_file_or_directory)
    set_mode path' metadata.mode
    set_owner path' metadata.uid metadata.gid
    set_time (codes "-a") path' metadata.accessed
    set_time (codes "-m") path' metadata.modified

  unfoldable pub remove_file : Text → Exec (Scp H) (Unit {0})
  remove_file path = do
    check_connection H
    path' ← absolute H path
    found ← exists_or_false C H path'
    guard found (new no_such_file_or_directory)
    expect_zero C H (codes "rm -f " ++ quoted path') (new could_not_remove_file) protocol_error

  unfoldable pub remove_dir : Text → Exec (Scp H) (Unit {0})
  remove_dir path = do
    check_connection H
    path' ← absolute H path
    found ← exists_or_false C H path'
    guard found (new no_such_file_or_directory)
    expect_zero C H (codes "rmdir " ++ quoted path') (new directory_not_empty) protocol_error

  unfoldable pub remove_dir_all : Text → Exec (Scp H) (Unit {0})
  remove_dir_all path = do
    check_connection H
    path' ← absolute H path
    found ← exists_or_false C H path'
    guard found (new no_such_file_or_directory)
    expect_zero C H (codes "rm -rf " ++ quoted path') (new could_not_remove_file) protocol_error

  unfoldable pub create_dir : Text → UnixPex → Exec (Scp H) (Unit {0})
  create_dir path mode = do
    check_connection H
    path' ← absolute H path
    found ← exists_or_false C H path'
    guard (not found) (new directory_already_exists)
    expect_zero C H (codes "mkdir -m " ++ (octal (C.pex_bits mode) ++ (codes " " ++ quoted path')))
        (new file_create_denied) protocol_error

  -- The target is looked up from the working directory, and linked to as it is given.
  unfoldable pub symlink : Text → Text → Exec (Scp H) (Unit {0})
  symlink path target = do
    check_connection H
    path' ← absolute H path
    target_found ← exists_or_false C H target
    guard target_found (new no_such_file_or_directory)
    found ← exists_or_false C H path'
    guard (not found) (new file_create_denied)
    expect_zero C H (codes "ln -s " ++ (quoted target ++ (codes " " ++ quoted path')))
        (new file_create_denied) protocol_error

  unfoldable pub copy : Text → Text → Exec (Scp H) (Unit {0})
  copy src dest = do
    check_connection H
    src' ← absolute H src
    found ← exists_or_false C H src'
    guard found (new no_such_file_or_directory)
    dest' ← absolute H dest
    expect_zero C H (codes "cp -rf " ++ (quoted src' ++ (codes " " ++ quoted dest')))
        (new_ex file_create_denied (quoted dest')) protocol_error

  unfoldable pub mov : Text → Text → Exec (Scp H) (Unit {0})
  mov src dest = do
    check_connection H
    src' ← absolute H src
    found ← exists_or_false C H src'
    guard found (new no_such_file_or_directory)
    dest' ← absolute H dest
    expect_zero C H (codes "mv -f " ++ (quoted src' ++ (codes " " ++ quoted dest')))
        (new_ex file_create_denied (quoted dest')) protocol_error

  unfoldable pub append : Text → Metadata UnixPex → Exec (Scp H) H.Channel
  append path metadata = raise (new unsupported_feature)

  -- The seconds of a time since the epoch, 0 where it is missing or earlier.
  abbrev pub secs_or_zero : Option SystemTime → ℕ
  secs_or_zero t = unwrap_or (secs_since_epoch (unwrap_or t unix_epoch)) 0

  unfoldable pub create : Text → Metadata UnixPex → Exec (Scp H) H.Channel
  create path metadata = do
    check_connection H
    path' ← absolute H path
    session ← session_mut H
    on_world (modify (H.set_blocking session true))
    let mode = unwrap_or (option_map C.pex_bits metadata.mode) 0o644
    on_world (
        call (new_ex file_create_denied) (
          H.scp_send session path' mode metadata.size (secs_or_zero metadata.modified)
            (secs_or_zero metadata.accessed)))
