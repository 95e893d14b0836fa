-- ===== src/Tests/Shelf.antt =====
-- A host whose SFTP server holds files by their paths, in which no link leads anywhere.
use remotefs_rs_ssh.Prelude.{
  ℕ, true, false, Bool, Option, none, some, List, [], ◌∷◌, length, is_some, not, if◌then◌else◌,
}
use remotefs_rs_ssh.Text.{Text, codes, text_eq}
use remotefs_rs_ssh.Exec.{ok}
use remotefs_rs_ssh.Host.{Host, FileStat, Reply, answer, failure}
use remotefs_rs_ssh.Ssh.Sftp.Server.{Node, folder, leaf, link}
use remotefs_rs_ssh.Tests.Script.{no_params}

abbrev pub Tree : Type 0
Tree = Text → Option Node

abbrev pub put : Text → Option Node → Tree → Tree
put p n t q = if text_eq q p then n else t q

pub record Shelf : Type 0 where
  pub live : Bool
  pub tree : Tree

abbrev kind_bits : Node → Option ℕ
kind_bits folder = some 16384
kind_bits _ = none

abbrev stat_for : Node → FileStat
stat_for n = record {
  size = none;
  uid = none;
  gid = none;
  perm = kind_bits n;
  atime = none;
  mtime = none;
}

-- What is shown, and what may be unlinked, opened for writing, removed as a folder, and made.
abbrev pub shows : Option Node → Bool
shows (some folder) = true
shows (some leaf) = true
shows _ = false

abbrev pub unlinkable : Option Node → Bool
unlinkable (some leaf) = true
unlinkable (some link) = true
unlinkable _ = false

abbrev pub writable : Option Node → Bool
writable none = true
writable (some leaf) = true
writable _ = false

abbrev pub is_folder : Option Node → Bool
is_folder (some folder) = true
is_folder _ = false

abbrev pub with_tree : Tree → Shelf → Shelf
with_tree t w = record w { tree = t }

-- A message that is answered where the test holds, and then leaves the tree.
abbrev pub replies : Bool → Tree → Shelf → Reply (Unit {0}) × Shelf
replies true t w = (answer tt, with_tree t w)
replies false t w = (failure [], w)

abbrev pub stat_of : Option Node → Shelf → Reply FileStat × Shelf
stat_of (some folder) w = (answer (stat_for folder), w)
stat_of (some leaf) w = (answer (stat_for leaf), w)
stat_of _ w = (failure [], w)

abbrev pub renamed : Text → Text → Tree → Tree
renamed src dest t = put dest (t src) (put src none t)

abbrev pub shelf : Host
shelf = record {
  World = Shelf;
  ParseRule = Unit {0};
  strict = tt;
  ConfigReader = Unit {0};
  SshConfig = Unit {0};
  config_open = λ p w. (answer tt, w);
  config_parse = λ r rules w. (answer tt, w);
  config_query = λ c h. no_params;
  params_default = no_params;
  SocketAddr = Unit {0};
  TcpStream = Unit {0};
  to_socket_addrs = λ a w. (answer (tt ∷ []), w);
  tcp_connect = λ a w. (answer tt, w);
  tcp_connect_timeout = λ a t w. (answer tt, w);
  Session = Unit {0};
  session_new = λ w. (answer tt, w);
  set_tcp_stream = λ x t w. w;
  set_compress = λ x b w. w;
  method_pref = λ x m t w. (answer tt, w);
  handshake = λ x w. (answer tt, w);
  authenticated = λ x w. w.live;
  userauth_pubkey_file = λ x u k p w. (answer tt, record w { live = true });
  userauth_password = λ x u p w. (answer tt, record w { live = true });
  set_blocking = λ x b w. w;
  banner = λ x w. none;
  disconnect = λ x w. (answer tt, record w { live = false });
  Agent = Unit {0};
  Identity = List ℕ;
  session_agent = λ x w. (answer tt, w);
  agent_connect = λ a w. (answer tt, w);
  agent_list_identities = λ a w. (answer tt, w);
  agent_identities = λ a w. (answer [], w);
  identity_blob = λ i. i;
  agent_userauth = λ a u i w. (answer tt, record w { live = true });
  agent_disconnect = λ a w. (answer tt, w);
  Channel = Unit {0};
  channel_session = λ x w. (answer tt, w);
  channel_exec = λ c cmd w. (answer tt, w);
  read_to_string = λ c w. (failure [], w);
  wait_close = λ c w. w;
  scp_send = λ x p m n t a w. (answer tt, w);
  scp_recv = λ x p w. (answer tt, w);
  Sftp = Unit {0};
  RemoteFile = Unit {0};
  session_sftp = λ x w. (answer tt, w);
  sftp_realpath = λ f p w. (answer (codes "/home"), w);
  sftp_readdir = λ f p w. (answer [], w);
  sftp_stat = λ f p w. stat_of (w.tree p) w;
  sftp_readlink = λ f p w. (answer (codes "target"), w);
  sftp_setstat = λ f p st w. (answer tt, w);
  sftp_unlink = λ f p w. replies (unlinkable (w.tree p)) (put p none w.tree) w;
  sftp_rmdir = λ f p w. replies (is_folder (w.tree p)) (put p none w.tree) w;
  sftp_mkdir = λ f p m w. replies (not (is_some (w.tree p))) (put p (some folder) w.tree) w;
  sftp_symlink = λ f to p w. replies (not (is_some (w.tree p))) (put p (some link) w.tree) w;
  sftp_rename_overwrite =
      λ f src dest w. replies (is_some (w.tree src)) (renamed src dest w.tree) w;
  sftp_open_mode = λ f p flags m w. replies (writable (w.tree p)) (put p (some leaf) w.tree) w;
  sftp_open = λ f p w. (answer tt, w);
  stat_is_symlink = λ st. false;
  stat_is_dir = λ st. is_some st.perm;
  on_written = λ f w. (ok tt, w);
  on_read = λ f w. (ok tt, w);
  file_read = λ f n w. (answer [], w);
  file_write = λ f bytes w. (answer (length bytes), w);
  file_flush = λ f w. (answer tt, w);
  file_seek = λ f pos w. (answer 0, w);
  LocalReader = Unit {0};
  LocalWriter = Unit {0};
  local_read = λ r n w. (answer [], w);
  local_write = λ r bytes w. (answer (length bytes), w);
  this_year = λ w. 2026;
}
