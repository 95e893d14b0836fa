-- ===== src/Host.antt =====
-- What the code reaches through the crates ssh2 and ssh2-config, through sockets and through the
-- local disk: operations over a state that the code cannot see, the remote machine included.
-- Handles are values; what they refer to lives in the state.
use remotefs_rs_ssh.Prelude.{ℕ, Bool, Option, List}
use remotefs_rs_ssh.Text.{Text}
use remotefs_rs_ssh.Exec.{Exec}

-- The answer of a foreign operation: a value, or an error by its text.
pub data Reply {ℓ} (A : Type ℓ) : Type ℓ where
  answer : A → Reply A
  failure : Text → Reply A

-- `ssh2::FileStat`, by the fields that the code reads and writes.
pub record FileStat : Type 0 where
  pub size : Option ℕ
  pub uid : Option ℕ
  pub gid : Option ℕ
  pub perm : Option ℕ
  pub atime : Option ℕ
  pub mtime : Option ℕ

-- `ssh2_config::HostParams`, by the fields that the code reads. A duration is in nanoseconds.
pub record HostParams : Type 0 where
  pub host_name : Option Text
  pub port : Option ℕ
  pub user : Option Text
  pub connect_timeout : Option ℕ
  pub connection_attempts : Option ℕ
  pub compression : Option Bool
  pub kex_algorithms : Option (List Text)
  pub host_key_algorithms : Option (List Text)
  pub ciphers : Option (List Text)
  pub mac : Option (List Text)
  pub identity_file : Option (List Text)

-- The flags of `ssh2::OpenFlags` that the code combines.
pub data OpenFlag : Type 0 where
  create append write truncate : OpenFlag

-- `ssh2::MethodType`
pub data SshMethodType : Type 0 where
  kex host_key crypt_cs crypt_sc mac_cs mac_sc : SshMethodType

-- `std::io::SeekFrom`: from the start, or by an offset from the end or from the position. `back n` is
-- the offset -(n + 1).
pub data Offset : Type 0 where
  ahead back : ℕ → Offset

pub data SeekFrom : Type 0 where
  start : ℕ → SeekFrom
  end current : Offset → SeekFrom

pub record Host : Type 1 where
  pub World : Type 0
  -- the ssh configuration file: `File::open`, `SshConfig::parse`, `SshConfig::query`
  pub ParseRule : Type 0
  pub strict : ParseRule
  pub ConfigReader : Type 0
  pub SshConfig : Type 0
  pub config_open : Text → World → Reply ConfigReader × World
  pub config_parse : ConfigReader → ParseRule → World → Reply SshConfig × World
  pub config_query : SshConfig → Text → HostParams
  pub params_default : HostParams
  -- sockets
  pub SocketAddr : Type 0
  pub TcpStream : Type 0
  pub to_socket_addrs : Text → World → Reply (List SocketAddr) × World
  pub tcp_connect : SocketAddr → World → Reply TcpStream × World
  pub tcp_connect_timeout : SocketAddr → ℕ → World → Reply TcpStream × World
  -- sessions
  pub Session : Type 0
  pub session_new : World → Reply Session × World
  pub set_tcp_stream : Session → TcpStream → World → World
  pub set_compress : Session → Bool → World → World
  pub method_pref : Session → SshMethodType → Text → World → Reply (Unit {0}) × World
  pub handshake : Session → World → Reply (Unit {0}) × World
  pub authenticated : Session → World → Bool
  pub userauth_pubkey_file : Session → Text → Text → Option Text → World → Reply (Unit {0}) × World
  pub userauth_password : Session → Text → Text → World → Reply (Unit {0}) × World
  pub set_blocking : Session → Bool → World → World
  pub banner : Session → World → Option Text
  pub disconnect : Session → World → Reply (Unit {0}) × World
  -- the ssh agent
  pub Agent : Type 0
  pub Identity : Type 0
  pub session_agent : Session → World → Reply Agent × World
  pub agent_connect : Agent → World → Reply (Unit {0}) × World
  pub agent_list_identities : Agent → World → Reply (Unit {0}) × World
  pub agent_identities : Agent → World → Reply (List Identity) × World
  pub identity_blob : Identity → List ℕ
  pub agent_userauth : Agent → Text → Identity → World → Reply (Unit {0}) × World
  pub agent_disconnect : Agent → World → Reply (Unit {0}) × World
  -- command channels
  pub Channel : Type 0
  pub channel_session : Session → World → Reply Channel × World
  pub channel_exec : Channel → Text → World → Reply (Unit {0}) × World
  pub read_to_string : Channel → World → Reply Text × World
  pub wait_close : Channel → World → World
  pub scp_send : Session → Text → ℕ → ℕ → ℕ → ℕ → World → Reply Channel × World
  pub scp_recv : Session → Text → World → Reply Channel × World
  -- sftp
  pub Sftp : Type 0
  pub RemoteFile : Type 0
  pub session_sftp : Session → World → Reply Sftp × World
  pub sftp_realpath : Sftp → Text → World → Reply Text × World
  pub sftp_readdir : Sftp → Text → World → Reply (List (Text × FileStat)) × World
  pub sftp_stat : Sftp → Text → World → Reply FileStat × World
  pub sftp_readlink : Sftp → Text → World → Reply Text × World
  pub sftp_setstat : Sftp → Text → FileStat → World → Reply (Unit {0}) × World
  pub sftp_unlink : Sftp → Text → World → Reply (Unit {0}) × World
  pub sftp_rmdir : Sftp → Text → World → Reply (Unit {0}) × World
  pub sftp_mkdir : Sftp → Text → ℕ → World → Reply (Unit {0}) × World
  pub sftp_symlink : Sftp → Text → Text → World → Reply (Unit {0}) × World
  pub sftp_rename_overwrite : Sftp → Text → Text → World → Reply (Unit {0}) × World
  pub sftp_open_mode : Sftp → Text → List OpenFlag → ℕ → World → Reply RemoteFile × World
  pub sftp_open : Sftp → Text → World → Reply RemoteFile × World
  -- `FileStat::file_type().is_symlink()` and `FileStat::is_dir()`
  pub stat_is_symlink : FileStat → Bool
  pub stat_is_dir : FileStat → Bool
  -- the byte streams that a transfer moves between
  pub file_read : RemoteFile → ℕ → World → Reply (List ℕ) × World
  pub file_write : RemoteFile → List ℕ → World → Reply ℕ × World
  pub file_flush : RemoteFile → World → Reply (Unit {0}) × World
  pub file_seek : RemoteFile → SeekFrom → World → Reply ℕ × World
  pub LocalReader : Type 0
  pub LocalWriter : Type 0
  pub local_read : LocalReader → ℕ → World → Reply (List ℕ) × World
  pub local_write : LocalWriter → List ℕ → World → Reply ℕ × World
  -- the trait's default `on_written` and `on_read`, which belong to remotefs
  pub on_written : RemoteFile → Exec World (Unit {0})
  pub on_read : RemoteFile → Exec World (Unit {0})
  -- the clock: `Utc::now().year()`
  pub this_year : World → ℕ
