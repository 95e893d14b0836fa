-- ===== src/Ssh/Commons/Connect/Calm.antt =====
-- src/ssh/commons.rs, connect: setting up a session does not panic.
use remotefs_rs_ssh.Prelude.{
  ℕ, zero, suc, Bool, Option, none, some, List, [], ◌∷◌, Bool-cases, inl, inr,
}
use remotefs_rs_ssh.Text.{Text}
use remotefs_rs_ssh.Remotefs.{RemoteError, new_ex, authentication_failed}
use remotefs_rs_ssh.Exec.{Exec, Outcome, ok, err, panic, diverged, modify, lift, steps, ◌>>=◌, ◌>>◌}
use remotefs_rs_ssh.Exec.Calm.{
  NoPanic, Calm, Calm-modify, Calm-pure, Calm-bind, Calm-handle, calm_rules,
}
use remotefs_rs_ssh.Foreign.{call, world_steps, Reply-cases}
use remotefs_rs_ssh.Host.{Host, Reply, SshMethodType}
use remotefs_rs_ssh.Ssh.Opts.{SshOpts, SshAgentIdentity, KeyMethod, pubkey_matches}
use remotefs_rs_ssh.Ssh.Config.{Config, try_from, parse, params_of}
use remotefs_rs_ssh.Ssh.Commons.Connect

module _ (H : Host) where
  -- No condition on the world.
  abbrev pub Always : H.World → Type 0
  Always w = Unit

  foreign-Calm :
      {A : Type 0} (k : Text → RemoteError) (f : H.World → Reply A × H.World)
      → Calm Always (call k f)
  unfolding world_steps
  foreign-Calm k f = record {
    at = λ s h. elim (Reply-cases (f s).0) [
      | inl (a, e) ↦ rw e (tt, tt)
      | inr (t, e) ↦ rw e (tt, tt)
    ];
  }

  modify-Calm : (f : H.World → H.World) → Calm Always (modify f)
  modify-Calm f = Calm-modify _ f (λ s h. tt)

ruleset world_rules = (calm_rules, foreign-Calm, modify-Calm)

module _ (H : Host) where
  abbrev Quiet : {A : Type 0} → Exec H.World A → Type 0
  Quiet m = Calm (Always H) m

  params_of-Calm : (o : SshOpts H.ParseRule) (p : Option Text) → Quiet (params_of H o p)
  unfolding parse
  params_of-Calm o none = search world_rules
  params_of-Calm o (some p) = search world_rules

  try_from-Calm : (o : SshOpts H.ParseRule) → Quiet (try_from H o)
  unfolding try_from
  try_from-Calm o = search (world_rules, params_of-Calm)

  tcp_connect-Calm : (a : H.SocketAddr) (t : ℕ) → Quiet (Connect.tcp_connect H a t)
  unfolding Connect.tcp_connect
  tcp_connect-Calm a t = search world_rules

  try_addresses-Calm : (t : ℕ) (l : List H.SocketAddr) → Quiet (Connect.try_addresses H t l)
  unfolding Connect.try_addresses
  try_addresses-Calm t [] = search world_rules
  try_addresses-Calm t (a ∷ l) =
      Calm-handle _ _ _ _ (tcp_connect-Calm a t) (λ s. Calm-pure _ _) (λ e. try_addresses-Calm t l)

  unless_found-Calm :
      (next : Exec H.World (Option H.TcpStream)) (o : Option H.TcpStream)
      → Quiet next
      → Quiet (Connect.unless_found H next o)
  unless_found-Calm next none h = h
  unless_found-Calm next (some s) h = search world_rules

  try_attempts-Calm : (n t : ℕ) (l : List H.SocketAddr) → Quiet (Connect.try_attempts H n t l)
  unfolding Connect.try_attempts
  try_attempts-Calm zero t l = search world_rules
  try_attempts-Calm (suc n) t l =
      Calm-bind _ _ _ (try_addresses-Calm t l)
        (λ o. unless_found-Calm _ o (try_attempts-Calm n t l))

  connected_stream-Calm : (o : Option H.TcpStream) → Quiet (Connect.connected_stream H o)
  connected_stream-Calm none = search world_rules
  connected_stream-Calm (some s) = search world_rules

  set_prefs-Calm :
      (x : H.Session) (l : List SshMethodType) (t : Text) → Quiet (Connect.set_prefs H x l t)
  set_prefs-Calm x [] t = search world_rules
  set_prefs-Calm x (m ∷ l) t = Calm-bind _ _ _ (foreign-Calm H _ _) (λ u. set_prefs-Calm x l t)

  set_optional-Calm :
      (x : H.Session) (l : List SshMethodType) (o : Option (List Text))
      → Quiet (Connect.set_optional H x l o)
  set_optional-Calm x l none = search world_rules
  set_optional-Calm x l (some t) = search set_prefs-Calm

  set_compression-Calm : (x : H.Session) (o : Option Bool) → Quiet (Connect.set_compression H x o)
  set_compression-Calm x none = search world_rules
  set_compression-Calm x (some b) = search world_rules

  set_methods-Calm : (x : H.Session) (l : List KeyMethod) → Quiet (Connect.set_methods H x l)
  unfolding Connect.set_methods
  set_methods-Calm x [] = search world_rules
  set_methods-Calm x (m ∷ l) = Calm-bind _ _ _ (foreign-Calm H _ _) (λ u. set_methods-Calm x l)

  set_algo_prefs-Calm :
      (x : H.Session) (o : SshOpts H.ParseRule) (c : Config)
      → Quiet (Connect.set_algo_prefs H x o c)
  unfolding Connect.set_algo_prefs
  set_algo_prefs-Calm x o c =
      search (world_rules, set_optional-Calm, set_compression-Calm, set_methods-Calm) depth 14

  -- The result of the last identity that was tried is no panic.
  identities-Calm :
      {A : Type 0} (k : Outcome (Unit {0}) → Exec H.World A) (wanted : SshAgentIdentity)
      (agent : H.Agent) (username : Text) (result : Outcome (Unit {0})) (l : List H.Identity)
      → ((r : Outcome (Unit {0})) → NoPanic r → Quiet (k r))
      → NoPanic result
      → Quiet (Connect.try_identities H wanted agent username result l >>= k)
  unfolding Connect.try_identities world_steps
  identities-Calm k wanted agent username result [] next fine = next result fine
  identities-Calm k wanted agent username result (i ∷ l) next fine =
      elim (Bool-cases (pubkey_matches wanted (H.identity_blob i))) [
        | inl same ↦ record {
          at = λ w h. elim (Reply-cases (H.agent_userauth agent username i w).0) [
            | inl (a, e) ↦
                rw (same, e) ((next (ok tt) tt).at (H.agent_userauth agent username i w).1 tt)
            | inr (t, e) ↦
                rw (same, e)
                  ((identities-Calm k wanted agent username (err (new_ex authentication_failed t)) l
                      next tt).at
                    (H.agent_userauth agent username i w).1 tt)
          ];
        }
        | inr other ↦ rw other (identities-Calm k wanted agent username result l next fine)
      ]

  after_identities-Calm :
      (agent : H.Agent) (r : Outcome (Unit {0}))
      → NoPanic r
      → Quiet (modify (λ w. (H.agent_disconnect agent w).1) >> lift r)
  unfolding steps
  after_identities-Calm agent (ok a) fine = record { at = λ w h. (tt, tt) }
  after_identities-Calm agent (err e) fine = record { at = λ w h. (tt, tt) }
  after_identities-Calm agent panic fine = elim fine [ ]
  after_identities-Calm agent diverged fine = record { at = λ w h. (tt, tt) }

  session_auth_with_agent-Calm :
      (x : H.Session) (username : Text) (wanted : SshAgentIdentity)
      → Quiet (Connect.session_auth_with_agent H x username wanted)
  unfolding Connect.session_auth_with_agent
  session_auth_with_agent-Calm x username wanted = Calm-bind _ _ _ (foreign-Calm H _ _) λ agent.
      Calm-bind _ _ _ (foreign-Calm H _ _) λ u. Calm-bind _ _ _ (foreign-Calm H _ _) λ v.
        Calm-bind _ _ _ (foreign-Calm H _ _)
          λ l. identities-Calm _ wanted agent username _ l (after_identities-Calm agent) tt

  try_keys-Calm :
      (x : H.Session) (username : Text) (password : Option Text) (l : List Text)
      → Quiet (Connect.try_keys H x username password l)
  unfolding Connect.try_keys
  try_keys-Calm x username password [] = search world_rules
  try_keys-Calm x username password (key ∷ l) =
      Calm-handle _ _ _ _ (foreign-Calm H _ _) (λ u. Calm-pure _ _)
        (λ e. try_keys-Calm x username password l)

  auth_with-Calm :
      (x : H.Session) (o : SshOpts H.ParseRule) (c : Config) (key : Option Text)
      → Quiet (Connect.auth_with H x o c key)
  unfolding Connect.session_auth_with_rsakey Connect.session_auth_with_password
  auth_with-Calm x o c none = search world_rules
  auth_with-Calm x o c (some key) = search try_keys-Calm

  authenticate-Calm :
      (x : H.Session) (o : SshOpts H.ParseRule) (c : Config) → Quiet (Connect.authenticate H x o c)
  unfolding Connect.authenticate steps
  authenticate-Calm x o c = record {
    at = λ w h. elim (Bool-cases (H.authenticated x w)) [
      | inl before ↦ rw before (tt, tt)
      | inr after ↦ rw after (
          (Calm-bind _ _ _ (auth_with-Calm x o c (Connect.stored_key H o c))
              (λ u. Calm-pure (Always H) x)).at
            w tt)
    ];
  }

  agent_first-Calm :
      (x : H.Session) (o : SshOpts H.ParseRule) (c : Config) (i : Option SshAgentIdentity)
      → Quiet (Connect.agent_first H x o c i)
  agent_first-Calm x o c none = authenticate-Calm x o c
  agent_first-Calm x o c (some wanted) =
      search (world_rules, session_auth_with_agent-Calm, authenticate-Calm)

  pub connect-Calm : (o : SshOpts H.ParseRule) → Quiet (Connect.connect H o)
  unfolding Connect.connect
  connect-Calm o =
      search
        (
          world_rules, try_from-Calm, try_attempts-Calm, connected_stream-Calm, set_algo_prefs-Calm,
          agent_first-Calm,
        )
        depth 20
