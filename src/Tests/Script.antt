-- ===== src/Tests/Script.antt =====
-- A host that plays a script: each command is noted and pops one output. Bytes move between two
-- lists, at most three in one read and two in one write.
use remotefs_rs_ssh.Prelude.{
  ◌%◌, ℕ, ◌+◌, ◌*◌, Bool, true, false, Option, none, some, List, [], ◌∷◌, ◌++◌, map, take, drop,
  length, ltb, if◌then◌else◌,
}
use remotefs_rs_ssh.Text.{Text, codes, text_eq, split_on}
use remotefs_rs_ssh.Crates.{Crates, positive}
use remotefs_rs_ssh.Exec.{ok}
use remotefs_rs_ssh.Host.{Host, HostParams, FileStat, Reply, answer, failure}

pub record Stage : Type 0 where
  pub live : Bool
  pub outputs : List Text
  pub sent : List Text
  pub source : List ℕ
  pub sink : List ℕ
  pub files : List (Text × FileStat)

abbrev pub done : Stage → Reply (Unit {0}) × Stage
done w = (answer tt, w)

abbrev pub unit_of : Stage → Reply (Unit {0}) × Stage
unit_of w = (answer tt, w)

abbrev pub play : List Text → Stage → Reply Text × Stage
play [] w = (failure (codes "end of script"), w)
play (o ∷ os) w = (answer o, record w { outputs = os })

abbrev pub no_params : HostParams
no_params = record {
  host_name = none;
  port = none;
  user = none;
  connect_timeout = none;
  connection_attempts = none;
  compression = none;
  kex_algorithms = none;
  host_key_algorithms = none;
  ciphers = none;
  mac = none;
  identity_file = none;
}

abbrev pub find_stat : Text → List (Text × FileStat) → Reply FileStat
find_stat p [] = failure (codes "no such file")
find_stat p ((q, st) ∷ rest) = if text_eq p q then answer st else find_stat p rest

-- How many bytes one read and one write move.
abbrev pub span : ℕ → ℕ
span n = if ltb n 3 then n else 3

abbrev pub part : List ℕ → ℕ
part bytes = if ltb 1 (length bytes) then 2 else 1

abbrev pub scripted : Host
scripted = record {
  World = Stage;
  ParseRule = Unit {0};
  strict = tt;
  ConfigReader = Unit {0};
  SshConfig = Unit {0};
  config_open = λ p w. (answer tt, w);
  config_parse = λ r rules w. (answer tt, w);
  config_query = λ c h. no_params;
  params_default = no_params;
  SocketAddr = Unit {0};
  TcpStream = Unit {0};
  to_socket_addrs = λ a w. (answer (tt ∷ []), w);
  tcp_connect = λ a w. (answer tt, w);
  tcp_connect_timeout = λ a t w. (answer tt, w);
  Session = Unit {0};
  session_new = λ w. (answer tt, w);
  set_tcp_stream = λ x t w. w;
  set_compress = λ x b w. w;
  method_pref = λ x m t w. (answer tt, w);
  handshake = λ x w. (answer tt, w);
  authenticated = λ x w. w.live;
  userauth_pubkey_file = λ x u k p w. (answer tt, record w { live = true });
  userauth_password = λ x u p w. (answer tt, record w { live = true });
  set_blocking = λ x b w. w;
  banner = λ x w. none;
  disconnect = λ x w. (answer tt, record w { live = false });
  Agent = Unit {0};
  Identity = List ℕ;
  session_agent = λ x w. (answer tt, w);
  agent_connect = λ a w. (answer tt, w);
  agent_list_identities = λ a w. (answer tt, w);
  agent_identities = λ a w. (answer [], w);
  identity_blob = λ i. i;
  agent_userauth = λ a u i w. (answer tt, record w { live = true });
  agent_disconnect = λ a w. (answer tt, w);
  Channel = Unit {0};
  channel_session = λ x w. (answer tt, w);
  channel_exec = λ c cmd w. (answer tt, record w { sent = w.sent ++ cmd ∷ [] });
  read_to_string = λ c w. play w.outputs w;
  wait_close = λ c w. w;
  scp_send = λ x p m n t a w. (answer tt, w);
  scp_recv = λ x p w. (answer tt, w);
  Sftp = Unit {0};
  RemoteFile = Unit {0};
  session_sftp = λ x w. (answer tt, w);
  sftp_realpath = λ f p w. (answer (codes "/home"), w);
  sftp_readdir = λ f p w. (answer w.files, w);
  sftp_stat = λ f p w. (find_stat p w.files, w);
  sftp_readlink = λ f p w. (answer (codes "target"), w);
  sftp_setstat = λ f p st w. (answer tt, w);
  sftp_unlink = λ f p w. (answer tt, w);
  sftp_rmdir = λ f p w. (answer tt, w);
  sftp_mkdir = λ f p m w. (answer tt, w);
  sftp_symlink = λ f p q w. (answer tt, w);
  sftp_rename_overwrite = λ f p q w. (answer tt, w);
  sftp_open_mode = λ f p flags m w. (answer tt, w);
  sftp_open = λ f p w. (answer tt, w);
  stat_is_symlink = λ st. false;
  stat_is_dir = λ st. false;
  on_written = λ f w. (ok tt, w);
  on_read = λ f w. (ok tt, w);
  file_read =
      λ f n w. (answer (take (span n) w.source), record w { source = drop (span n) w.source });
  file_write =
      λ f bytes w. (answer (part bytes), record w { sink = w.sink ++ take (part bytes) bytes });
  file_flush = λ f w. (answer tt, w);
  file_seek = λ f pos w. (answer 0, w);
  LocalReader = Unit {0};
  LocalWriter = Unit {0};
  local_read =
      λ r n w. (answer (take (span n) w.source), record w { source = drop (span n) w.source });
  local_write =
      λ r bytes w. (answer (part bytes), record w { sink = w.sink ++ take (part bytes) bytes });
  this_year = λ w. 2026;
}

-- A line of nine words is a match.
abbrev pub words_of : List Text → Option (List (Option Text))
words_of (t ∷ p ∷ l ∷ u ∷ g ∷ n ∷ d ∷ f ∷ []) =
    some (map some ([] ∷ t ∷ p ∷ l ∷ u ∷ g ∷ n ∷ d ∷ f ∷ []))
words_of _ = none

abbrev pub plain_crates : Crates
plain_crates = record {
  UnixPex = ℕ;
  UnixPexClass = ℕ;
  class_from = λ n. n;
  pex_new = λ u g o. u * 64 + g * 8 + o;
  pex_from = λ n. n % 512;
  pex_bits = λ n. n;
  display_error = λ e. [];
  captures = λ re line. words_of (split_on 32 line);
  NaiveDate = Unit {0};
  NaiveDateTime = ℕ;
  parse_date = λ t f. some tt;
  parse_date_time = λ t f. none;
  and_hms_opt = λ d h m s. some 1000;
  timestamp = positive;
  format_time = λ t f. [];
}

abbrev pub quiet : Stage
quiet = record { live = true; outputs = []; sent = []; source = []; sink = []; files = [] }
