-- ===== src/Ssh/Commons/Connect.antt =====
-- src/ssh/commons.rs, connect: the socket, the algorithm preferences and the authentication.
pub mod Auth
pub mod Identities
pub mod Attempts
pub mod Prefs
pub mod Calm
use remotefs_rs_ssh.Prelude.{
  ℕ, zero, suc, Bool, Option, none, some, List, [], ◌∷◌, ◌==◌, if◌then◌else◌, unwrap_or, option_or,
  and_then,
}
use remotefs_rs_ssh.Text.{Text, codes, join}
use remotefs_rs_ssh.Remotefs.{
  RemoteError, new, new_ex, authentication_failed, bad_address, connection_error, protocol_error,
}
use remotefs_rs_ssh.Exec.{Exec, Outcome, ok, err, pure, raise, lift, modify, handle, ◌>>=◌, ◌>>◌}
use remotefs_rs_ssh.Foreign.{call}
use remotefs_rs_ssh.Host.{Host, SshMethodType, kex, host_key, crypt_cs, crypt_sc, mac_cs, mac_sc}
use remotefs_rs_ssh.Ssh.Opts.{
  SshOpts, SshAgentIdentity, KeyMethod, pubkey_matches, prefs, ssh_method_type,
}
use remotefs_rs_ssh.Ssh.Config.{Config, try_from}

module _ (H : Host) where
  open H use {World, Session, SocketAddr, TcpStream, Agent, Identity, ParseRule}

  -- If timeout is zero, don't set timeout
  unfoldable pub tcp_connect : SocketAddr → ℕ → Exec World TcpStream
  tcp_connect address timeout =
      if timeout == 0
      then call (new_ex connection_error) (H.tcp_connect address)
      else call (new_ex connection_error) (H.tcp_connect_timeout address timeout)

  -- The addresses in turn, until one answers. The error of `tcp_connect` is dropped.
  unfoldable pub try_addresses : ℕ → List SocketAddr → Exec World (Option TcpStream)
  try_addresses timeout [] = pure none
  try_addresses timeout (a ∷ rest) =
      handle (tcp_connect a timeout) (λ s. pure (some s)) (λ _. try_addresses timeout rest)

  abbrev pub unless_found :
      Exec World (Option TcpStream) → Option TcpStream → Exec World (Option TcpStream)
  unless_found next (some s) = pure (some s)
  unless_found next none = next

  unfoldable pub try_attempts : ℕ → ℕ → List SocketAddr → Exec World (Option TcpStream)
  try_attempts zero timeout addresses = pure none
  try_attempts (suc n) timeout addresses = try_addresses timeout addresses >>= λ found.
      unless_found (λ w. try_attempts n timeout addresses w) found

  abbrev pub connected_stream : Option TcpStream → Exec World TcpStream
  connected_stream (some s) = pure s
  connected_stream none = raise (new_ex connection_error (codes "connection timeout"))

  abbrev pub method_pref : Session → Text → SshMethodType → Exec World (Unit {0})
  method_pref session algos m = call (new_ex protocol_error) (H.method_pref session m algos)

  -- One optional list of algorithms, set for each of the methods in turn.
  abbrev pub set_prefs : Session → List SshMethodType → Text → Exec World (Unit {0})
  set_prefs session [] algos = pure tt
  set_prefs session (m ∷ ms) algos = method_pref session algos m >> set_prefs session ms algos

  abbrev pub set_optional :
      Session → List SshMethodType → Option (List Text) → Exec World (Unit {0})
  set_optional session ms none = pure tt
  set_optional session ms (some algos) = set_prefs session ms (join (codes ",") algos)

  abbrev pub set_compression : Session → Option Bool → Exec World (Unit {0})
  set_compression session none = pure tt
  set_compression session (some b) = modify (H.set_compress session b)

  -- configure algos from opts
  unfoldable pub set_methods : Session → List KeyMethod → Exec World (Unit {0})
  set_methods session [] = pure tt
  set_methods session (m ∷ ms) =
      method_pref session (prefs m) (ssh_method_type m.method_type) >> set_methods session ms

  -- Configure algorithm preferences into session
  unfoldable pub set_algo_prefs : Session → SshOpts ParseRule → Config → Exec World (Unit {0})
  set_algo_prefs session opts config = do
    let params = config.params
    set_compression session params.compression
    set_optional session (kex ∷ []) params.kex_algorithms
    set_optional session (host_key ∷ []) params.host_key_algorithms
    set_optional session (crypt_cs ∷ crypt_sc ∷ []) params.ciphers
    set_optional session (mac_cs ∷ mac_sc ∷ []) params.mac
    set_methods session opts.methods

  -- The identities that match, in turn, until the agent authenticates with one. The argument
  -- `result` is the variable `connection_result`.
  unfoldable pub try_identities :
      SshAgentIdentity
      → Agent
      → Text
      → Outcome (Unit {0})
      → List Identity
      → Exec World (Outcome (Unit {0}))
  try_identities wanted agent username result [] = pure result
  try_identities wanted agent username result (identity ∷ rest) =
      if pubkey_matches wanted (H.identity_blob identity)
      then handle (call (new_ex authentication_failed) (H.agent_userauth agent username identity))
          (λ _. pure (ok tt)) (λ e. try_identities wanted agent username (err e) rest)
      else try_identities wanted agent username result rest

  -- Authenticate on session with ssh agent
  unfoldable pub session_auth_with_agent : Session → Text → SshAgentIdentity → Exec World (Unit {0})
  session_auth_with_agent session username wanted = do
    agent ← call (new_ex connection_error) (H.session_agent session)
    call (new_ex connection_error) (H.agent_connect agent)
    call (new_ex connection_error) (H.agent_list_identities agent)
    identities ← call (new_ex connection_error) (H.agent_identities agent)
    result ← try_identities wanted agent username (err (new authentication_failed)) identities
    modify (λ w. (H.agent_disconnect agent w).1)
    lift result

  abbrev pub no_suitable_key : RemoteError
  no_suitable_key =
      new_ex authentication_failed
        (codes "could not find any suitable RSA key to authenticate with")

  unfoldable pub try_keys : Session → Text → Option Text → List Text → Exec World (Unit {0})
  try_keys session username password [] = raise no_suitable_key
  try_keys session username password (key ∷ rest) =
      handle
        (call (new_ex authentication_failed) (H.userauth_pubkey_file session username key password))
        (λ _. pure tt) (λ _. try_keys session username password rest)

  -- Authenticate on session with private key
  unfoldable pub session_auth_with_rsakey :
      Session → Text → Text → Option Text → Option (List Text) → Exec World (Unit {0})
  session_auth_with_rsakey session username private_key password identity_file =
      try_keys session username password (private_key ∷ unwrap_or identity_file [])

  -- Authenticate on session with username and password
  unfoldable pub session_auth_with_password : Session → Text → Option Text → Exec World (Unit {0})
  session_auth_with_password session username password =
      call (new_ex authentication_failed)
        (H.userauth_password session username (unwrap_or password []))

  -- The key of the host by its given name, or else by its resolved name.
  unfoldable pub stored_key : SshOpts ParseRule → Config → Option Text
  stored_key opts config = and_then opts.key_storage λ resolve.
      option_or (resolve config.host config.username) (resolve config.resolved_host config.username)

  abbrev pub auth_with : Session → SshOpts ParseRule → Config → Option Text → Exec World (Unit {0})
  auth_with session opts config (some key) =
      session_auth_with_rsakey session config.username key opts.password config.params.identity_file
  auth_with session opts config none =
      session_auth_with_password session config.username opts.password

  -- Authenticate with password or key
  unfoldable pub authenticate : Session → SshOpts ParseRule → Config → Exec World Session
  authenticate session opts config w =
      if H.authenticated session w
      then (ok session, w)
      else (auth_with session opts config (stored_key opts config) >> pure session) w

  -- With an agent identity the agent comes first, and its failure is not the last word.
  abbrev pub agent_first :
      Session → SshOpts ParseRule → Config → Option SshAgentIdentity → Exec World Session
  agent_first session opts config none = authenticate session opts config
  agent_first session opts config (some wanted) =
      handle (session_auth_with_agent session config.username wanted) (λ _. pure session)
        (λ _. authenticate session opts config)

  -- Establish connection with remote server and in case of success, return the session
  unfoldable pub connect : SshOpts ParseRule → Exec World Session
  connect opts = do
    config ← try_from H opts
    addresses ← call (new_ex bad_address) (H.to_socket_addrs config.address)
    found ← try_attempts config.connection_attempts config.connection_timeout addresses
    stream ← connected_stream found
    session ← call (new_ex connection_error) H.session_new
    modify (H.set_tcp_stream session stream)
    set_algo_prefs session opts config
    call (new_ex protocol_error) (H.handshake session)
    agent_first session opts config opts.ssh_agent_identity
