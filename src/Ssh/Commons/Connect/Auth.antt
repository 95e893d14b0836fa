-- ===== src/Ssh/Commons/Connect/Auth.antt =====
-- src/ssh/commons.rs, connect: the ways to authenticate, and the session that is returned.
use remotefs_rs_ssh.Prelude.{
  ◌≡◌, ◌≢◌, true, Option, none, some, List, [], ◌∷◌, arith, Bool-cases, inl, inr, unwrap_or,
}
use remotefs_rs_ssh.Text.{Text}
use remotefs_rs_ssh.Remotefs.{RemoteError, connection_error, new, new_ex, authentication_failed}
use remotefs_rs_ssh.Exec.{Outcome, ok, err, Exec, modify, lift, ◌>>=◌, ◌>>◌, steps}
use remotefs_rs_ssh.Exec.Ensures.{Ensures, Ensures-bind, Ensures-bind_result}
use remotefs_rs_ssh.Foreign.{Reply-cases, world_steps, call}
use remotefs_rs_ssh.Host.{Host, Reply, answer}
use remotefs_rs_ssh.Ssh.Opts.{SshOpts, SshAgentIdentity, pubkey_matches}
use remotefs_rs_ssh.Ssh.Config.{Config}
use remotefs_rs_ssh.Ssh.Commons.Connect.{
  try_identities, session_auth_with_agent, try_keys, session_auth_with_rsakey,
  session_auth_with_password, stored_key, auth_with, authenticate, agent_first, connect,
}

-- What ssh2 documents of the authentication: where a way to authenticate succeeds, its session is
-- authenticated, and leaving the agent does not change that. An agent belongs to a session.
pub record AuthHost (H : Host) : Type 0 where
  pub owner : H.Agent → H.Session
  pub pubkey_file_ok :
      (x : H.Session) (u k : Text) (p : Option Text) (w : H.World)
      → (H.userauth_pubkey_file x u k p w).0 ≡ answer tt
      → H.authenticated x (H.userauth_pubkey_file x u k p w).1 ≡ true
  pub password_ok :
      (x : H.Session) (u p : Text) (w : H.World)
      → (H.userauth_password x u p w).0 ≡ answer tt
      → H.authenticated x (H.userauth_password x u p w).1 ≡ true
  pub agent_ok :
      (a : H.Agent) (u : Text) (i : H.Identity) (w : H.World)
      → (H.agent_userauth a u i w).0 ≡ answer tt
      → H.authenticated (owner a) (H.agent_userauth a u i w).1 ≡ true
  pub agent_owner :
      (x : H.Session) (a : H.Agent) (w : H.World) → (H.session_agent x w).0 ≡ answer a → owner a ≡ x
  pub agent_left :
      (x : H.Session) (a : H.Agent) (w : H.World)
      → H.authenticated x (H.agent_disconnect a w).1 ≡ H.authenticated x w

call-answer :
    {A W : Type 0} (e : Text → RemoteError) (f : W → Reply A × W) (w : W) (a : A)
    → (call e f w).0 ≡ ok a
    → (f w).0 ≡ answer a
unfolding world_steps
call-answer e f w a h = ground arith

module _ (H : Host) (auth : AuthHost H) where
  try_keys-authenticated :
      (x : H.Session) (u : Text) (p : Option Text) (keys : List Text) (w : H.World)
      → (try_keys H x u p keys w).0 ≡ ok tt
      → H.authenticated x (try_keys H x u p keys w).1 ≡ true
  unfolding try_keys world_steps
  try_keys-authenticated x u p [] w h = ground arith
  try_keys-authenticated x u p (k ∷ rest) w h =
      let r = H.userauth_pubkey_file x u k p w in
      ground (arith, auth.pubkey_file_ok x u k p w, try_keys-authenticated x u p rest r.1)

  password-authenticated :
      (x : H.Session) (u : Text) (p : Option Text) (w : H.World)
      → (session_auth_with_password H x u p w).0 ≡ ok tt
      → H.authenticated x (session_auth_with_password H x u p w).1 ≡ true
  unfolding session_auth_with_password world_steps
  password-authenticated x u p w h = ground (arith, auth.password_ok x u (unwrap_or p []) w)

  auth_with-authenticated :
      (x : H.Session) (opts : SshOpts H.ParseRule) (config : Config) (key : Option Text)
      (w : H.World)
      → (auth_with H x opts config key w).0 ≡ ok tt
      → H.authenticated x (auth_with H x opts config key w).1 ≡ true
  unfolding session_auth_with_rsakey
  auth_with-authenticated x opts config none w h = password-authenticated x _ _ w h
  auth_with-authenticated x opts config (some k) w h = try_keys-authenticated x _ _ _ w h

  authenticate-authenticated :
      (x y : H.Session) (opts : SshOpts H.ParseRule) (config : Config) (w : H.World)
      → (authenticate H x opts config w).0 ≡ ok y
      → H.authenticated y (authenticate H x opts config w).1 ≡ true
  unfolding authenticate world_steps
  authenticate-authenticated x y opts config w h =
      ground (arith, auth_with-authenticated x opts config (stored_key H opts config) w)

  try_identities-authenticated :
      (wanted : SshAgentIdentity) (a : H.Agent) (u : Text) (result : Outcome (Unit {0}))
      (is : List H.Identity) (w : H.World)
      → result ≢ ok tt
      → (try_identities H wanted a u result is w).0 ≡ ok (ok tt)
      → H.authenticated (auth.owner a) (try_identities H wanted a u result is w).1 ≡ true
  unfolding try_identities world_steps
  try_identities-authenticated wanted a u result [] w start h = ground arith
  try_identities-authenticated wanted a u result (i ∷ rest) w start h =
      let r = H.agent_userauth a u i w in
      elim (Bool-cases (pubkey_matches wanted (H.identity_blob i))) [
        | inr other ↦
            rw other (try_identities-authenticated wanted a u result rest w start (rw other at h))
        | inl matched ↦ elim (Reply-cases r.0) [
          | inl (ok_tt, e) ↦ rw (matched, e) (auth.agent_ok a u i w e)
          | inr (t, e) ↦
              rw (matched, e)
                (try_identities-authenticated wanted a u (err (new_ex authentication_failed t)) rest
                  r.1 (λ q. ground arith) (rw (matched, e) at h))
        ]
      ]

  -- The end of `session_auth_with_agent`, from the identities on.
  abbrev tried : H.Agent → Text → SshAgentIdentity → List H.Identity → Exec H.World (Unit {0})
  tried a u wanted is =
      try_identities H wanted a u (err (new authentication_failed)) is >>= λ result.
      modify (λ w. (H.agent_disconnect a w).1) >> lift result

  tried-authenticated :
      (a : H.Agent) (u : Text) (wanted : SshAgentIdentity) (is : List H.Identity) (w : H.World)
      → (tried a u wanted is w).0 ≡ ok tt
      → H.authenticated (auth.owner a) (tried a u wanted is w).1 ≡ true
  unfolding world_steps
  tried-authenticated a u wanted is w h =
      let r = try_identities H wanted a u (err (new authentication_failed)) is w in
      ground (
        arith,
        auth.agent_left (auth.owner a) a r.1,
        try_identities-authenticated wanted a u (err (new authentication_failed)) is w
            (λ q. ground arith),
      )

  tried-Ensures :
      (a : H.Agent) (u : Text) (wanted : SshAgentIdentity) (is : List H.Identity)
      → Ensures
          (λ (b : Unit {0}) (v : H.World). H.authenticated (auth.owner a) v ≡ true)
          (tried a u wanted is)
  tried-Ensures a u wanted is = record { at = λ w b h. tried-authenticated a u wanted is w h }

  asked-Ensures :
      (a : H.Agent) (x : H.Session) (u : Text) (wanted : SshAgentIdentity)
      → auth.owner a ≡ x
      → Ensures
          (λ (b : Unit {0}) (v : H.World). H.authenticated x v ≡ true)
          (call (new_ex connection_error) (H.agent_connect a)
            >> (call (new_ex connection_error) (H.agent_list_identities a)
                >> (call (new_ex connection_error) (H.agent_identities a) >>= tried a u wanted)))
  asked-Ensures a x u wanted e = rw (← e) (search (Ensures-bind, tried-Ensures) depth 12)

  agent-Ensures :
      (x : H.Session) (u : Text) (wanted : SshAgentIdentity)
      → Ensures
          (λ (b : Unit {0}) (v : H.World). H.authenticated x v ≡ true)
          (session_auth_with_agent H x u wanted)
  unfolding session_auth_with_agent
  agent-Ensures x u wanted = Ensures-bind_result _ _ _ (λ w a e.
      asked-Ensures a x u wanted
        (auth.agent_owner x a w (call-answer (new_ex connection_error) (H.session_agent x) w a e)))

  agent_first-authenticated :
      (x y : H.Session) (opts : SshOpts H.ParseRule) (config : Config)
      (wanted : Option SshAgentIdentity) (w : H.World)
      → (agent_first H x opts config wanted w).0 ≡ ok y
      → H.authenticated y (agent_first H x opts config wanted w).1 ≡ true
  unfolding steps
  agent_first-authenticated x y opts config none w h =
      authenticate-authenticated x y opts config w h
  agent_first-authenticated x y opts config (some wanted) w h =
      let a = session_auth_with_agent H x config.username wanted w in
      ground (
        arith,
        (agent-Ensures x config.username wanted).at w tt,
        authenticate-authenticated x y opts config a.1,
      )

  agent_first-Ensures :
      (x : H.Session) (opts : SshOpts H.ParseRule) (config : Config)
      (wanted : Option SshAgentIdentity)
      → Ensures
          (λ (y : H.Session) (w : H.World). H.authenticated y w ≡ true)
          (agent_first H x opts config wanted)
  agent_first-Ensures x opts config wanted = record {
    at = λ w y h. agent_first-authenticated x y opts config wanted w h;
  }

  connect-Ensures :
      (opts : SshOpts H.ParseRule)
      → Ensures (λ (x : H.Session) (w : H.World). H.authenticated x w ≡ true) (connect H opts)
  unfolding connect
  connect-Ensures opts = search (Ensures-bind, agent_first-Ensures) depth 12

  -- On a host where each way to authenticate that succeeds leaves its session authenticated, an
  -- agent belongs to the session that opened it, and leaving the agent changes nothing of that: a
  -- session that `connect` returns is authenticated, whichever way it went.
  pub connect-authenticated :
      (opts : SshOpts H.ParseRule) (w : H.World) (x : H.Session)
      → (connect H opts w).0 ≡ ok x
      → H.authenticated x (connect H opts w).1 ≡ true
  connect-authenticated opts w x h = (connect-Ensures opts).at w x h
