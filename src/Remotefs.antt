-- ===== src/Remotefs.antt =====
-- The types of the crate remotefs as far as the code's own patterns and record literals show them
-- (imports of src/ssh/scp.rs, sftp.rs and commons.rs), and `std::time::SystemTime`.
use remotefs_rs_ssh.Prelude.{ℕ, Bool, true, false, Option, none, some}
use remotefs_rs_ssh.Text.{Text}

-- The kinds of `RemoteErrorType` that the code raises.
pub data RemoteErrorType : Type 0 where
  authentication_failed bad_address bad_file connection_error could_not_open_file : RemoteErrorType
  could_not_remove_file directory_already_exists directory_not_empty file_create_denied io_error :
      RemoteErrorType
  no_such_file_or_directory not_connected protocol_error stat_failed unsupported_feature :
      RemoteErrorType

pub record RemoteError : Type 0 where
  pub kind : RemoteErrorType
  pub msg : Option Text

-- `RemoteError::new`
abbrev pub new : RemoteErrorType → RemoteError
new k = record { kind = k; msg = none }

-- `RemoteError::new_ex`
abbrev pub new_ex : RemoteErrorType → Text → RemoteError
new_ex k m = record { kind = k; msg = some m }

-- A time at or after the Unix epoch, or a duration before it: seconds, then nanoseconds.
pub data SystemTime : Type 0 where
  since before : ℕ → ℕ → SystemTime

abbrev pub unix_epoch : SystemTime
unix_epoch = since 0 0

-- `t.duration_since(UNIX_EPOCH).ok()`, in whole seconds.
abbrev pub secs_since_epoch : SystemTime → Option ℕ
secs_since_epoch (since s n) = some s
secs_since_epoch (before s n) = none

pub data FileType : Type 0 where
  directory file symlink : FileType

-- `UnixPex` is a parameter: it belongs to remotefs.
pub record Metadata (UnixPex : Type 0) : Type 0 where
  pub accessed : Option SystemTime
  pub created : Option SystemTime
  pub file_type : FileType
  pub gid : Option ℕ
  pub mode : Option UnixPex
  pub modified : Option SystemTime
  pub size : ℕ
  pub symlink : Option Text
  pub uid : Option ℕ

pub record File (UnixPex : Type 0) : Type 0 where
  pub path : Text
  pub metadata : Metadata UnixPex

abbrev pub is_directory_type : FileType → Bool
is_directory_type FileType.directory = true
is_directory_type _ = false

-- `File::is_dir`
abbrev pub is_dir : {UnixPex : Type 0} → File UnixPex → Bool
is_dir f = is_directory_type f.metadata.file_type
