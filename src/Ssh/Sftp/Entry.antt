-- ===== src/Ssh/Sftp/Entry.antt =====
-- src/ssh/sftp.rs, `make_fsentry` and `metadata_to_filestat`: the attributes of the protocol and
-- the metadata of remotefs.
pub mod Attributes
use remotefs_rs_ssh.Prelude.{
  Bool, true, false, Option, none, some, List, [], ◌∷◌, option_map, and_then, is_some, unwrap_or,
}
use remotefs_rs_ssh.Text.{Text}
use remotefs_rs_ssh.Remotefs.{File, Metadata, FileType, directory, new, bad_file, secs_since_epoch}
use remotefs_rs_ssh.Exec.{Exec, pure, handle, ◌>>=◌}
use remotefs_rs_ssh.Foreign.{on_world, call}
use remotefs_rs_ssh.Host.{Host, FileStat}
use remotefs_rs_ssh.Crates.{Crates}
use remotefs_rs_ssh.Utils.{epoch_plus}
use remotefs_rs_ssh.Ssh.Sftp.Client.{SftpState, sftp_ref}

abbrev pub type_of : Bool → Bool → FileType
type_of true dir = FileType.symlink
type_of false true = directory
type_of false false = FileType.file

unfoldable pub metadata_to_filestat : (C : Crates) → Metadata C.UnixPex → FileStat
metadata_to_filestat C metadata = record {
  size = some metadata.size;
  uid = metadata.uid;
  gid = metadata.gid;
  perm = option_map C.pex_bits metadata.mode;
  atime = and_then metadata.accessed secs_since_epoch;
  mtime = and_then metadata.modified secs_since_epoch;
}

module _ (C : Crates) (H : Host) where
  open C use {UnixPex}

  -- The target of a link; an error of `readlink` is logged and dropped.
  abbrev pub link_of : Text → Bool → Exec (SftpState H) (Option Text)
  link_of path false = pure none
  link_of path true = sftp_ref H >>= λ x.
      handle (on_world (call (λ e. new bad_file) (H.sftp_readlink x path))) (λ p. pure (some p))
        (λ _. pure none)

  abbrev pub fsentry : Text → FileStat → Option Text → File UnixPex
  fsentry path stat link = record {
    path = path;
    metadata = record {
      accessed = option_map epoch_plus stat.atime;
      created = none;
      file_type = type_of (is_some link) (H.stat_is_dir stat);
      gid = stat.gid;
      mode = option_map C.pex_from stat.perm;
      modified = option_map epoch_plus stat.mtime;
      size = unwrap_or stat.size 0;
      symlink = link;
      uid = stat.uid;
    };
  }

  -- Make fsentry from SFTP stat
  unfoldable pub make_fsentry : Text → FileStat → Exec (SftpState H) (File UnixPex)
  make_fsentry path stat =
      link_of path (H.stat_is_symlink stat) >>= λ link. pure (fsentry path stat link)

  unfoldable pub make_fsentries : List (Text × FileStat) → Exec (SftpState H) (List (File UnixPex))
  make_fsentries [] = pure []
  make_fsentries ((path, stat) ∷ rest) =
      make_fsentry path stat >>= λ f. make_fsentries rest >>= λ fs. pure (f ∷ fs)
