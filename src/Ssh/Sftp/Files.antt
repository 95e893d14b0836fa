-- ===== src/Ssh/Sftp/Files.antt =====
-- src/ssh/sftp.rs: opening files, and moving their bytes.
pub mod Sending
pub mod Receiving
pub mod RoundTrip
pub mod Partial
use remotefs_rs_ssh.Prelude.{ℕ, [], ◌∷◌, unwrap_or, option_map}
use remotefs_rs_ssh.Text.{Text}
use remotefs_rs_ssh.Remotefs.{
  Metadata, new, new_ex, could_not_open_file, file_create_denied, io_error,
  no_such_file_or_directory, not_connected,
}
use remotefs_rs_ssh.Exec.{Exec, pure, guard, ◌>>=◌, ◌>>◌}
use remotefs_rs_ssh.Foreign.{on_world, call, mapped}
use remotefs_rs_ssh.Host.{Host, OpenFlag, write, truncate}
use remotefs_rs_ssh.Crates.{Crates}
use remotefs_rs_ssh.Ssh.Stream.Reading
use remotefs_rs_ssh.Ssh.Stream.Reading.{SftpReadStream}
use remotefs_rs_ssh.Ssh.Stream.Writing
use remotefs_rs_ssh.Ssh.Stream.Writing.{SftpWriteStream}
use remotefs_rs_ssh.Ssh.Sftp.Client.{
  SftpState, is_connected, check_connection, absolute, sftp_ref, with_sftp,
}
use remotefs_rs_ssh.Ssh.Sftp.Ops.{stat, exists_or_false}
use remotefs_rs_ssh.Ssh.Sftp.Transfer.{copy_loop}

module _ (C : Crates) (H : Host) where
  open C use {UnixPex}
  open H use {LocalReader, LocalWriter}

  -- `metadata.mode.map(|x| u32::from(x) as i32).unwrap_or(0o644)`
  abbrev pub mode_of : Metadata UnixPex → ℕ
  mode_of metadata = unwrap_or (option_map C.pex_bits metadata.mode) 0o644

  unfoldable pub append : Text → Metadata UnixPex → Exec (SftpState H) (SftpWriteStream H)
  append path metadata = with_sftp H λ x. do
    path' ← absolute H path
    on_world (
        call (new_ex could_not_open_file) (
          mapped Writing.from_file (
            H.sftp_open_mode x path' (OpenFlag.create ∷ OpenFlag.append ∷ write ∷ [])
              (mode_of metadata))))

  unfoldable pub create : Text → Metadata UnixPex → Exec (SftpState H) (SftpWriteStream H)
  create path metadata = with_sftp H λ x. do
    path' ← absolute H path
    on_world (
        call (new_ex file_create_denied) (
          mapped Writing.from_file (
            H.sftp_open_mode x path' (OpenFlag.create ∷ write ∷ truncate ∷ []) (mode_of metadata))))

  unfoldable pub open_read : Text → Exec (SftpState H) (SftpReadStream H)
  open_read path = do
    check_connection H
    path' ← absolute H path
    found ← exists_or_false C H path'
    guard found (new no_such_file_or_directory)
    x ← sftp_ref H
    on_world (call (new_ex could_not_open_file) (mapped Reading.from_file (H.sftp_open x path')))

  -- The loop of `append_file` and `create_file`, from a local reader into a remote file.
  abbrev pub send : ℕ → ℕ → LocalReader → SftpWriteStream H → ℕ → Exec (SftpState H) ℕ
  send writes rounds reader stream size =
      copy_loop (λ n. on_world (call (new_ex io_error) (H.local_read reader n)))
        (λ bytes. on_world (call (new_ex io_error) (Writing.write stream bytes))) writes rounds size
        0

  abbrev pub receive : ℕ → ℕ → SftpReadStream H → LocalWriter → ℕ → Exec (SftpState H) ℕ
  receive writes rounds stream dest size =
      copy_loop (λ n. on_world (call (new_ex io_error) (Reading.read stream n)))
        (λ bytes. on_world (call (new_ex io_error) (H.local_write dest bytes))) writes rounds size 0

  unfoldable pub append_file : ℕ → ℕ → Text → Metadata UnixPex → LocalReader → Exec (SftpState H) ℕ
  append_file writes rounds path metadata reader = do
    connected ← is_connected H
    guard connected (new not_connected)
    stream ← append path metadata
    bytes ← send writes rounds reader stream metadata.size
    on_world (H.on_written stream.file)
    pure bytes

  unfoldable pub create_file : ℕ → ℕ → Text → Metadata UnixPex → LocalReader → Exec (SftpState H) ℕ
  create_file writes rounds path metadata reader = do
    connected ← is_connected H
    guard connected (new not_connected)
    stream ← create path metadata
    bytes ← send writes rounds reader stream metadata.size
    on_world (H.on_written stream.file)
    pure bytes

  unfoldable pub open_file : ℕ → ℕ → Text → LocalWriter → Exec (SftpState H) ℕ
  open_file writes rounds src dest = do
    connected ← is_connected H
    guard connected (new not_connected)
    f ← stat C H src
    stream ← open_read src
    bytes ← receive writes rounds stream dest f.metadata.size
    on_world (H.on_read stream.file)
    pure bytes
