-- ===== src/Ssh/Scp/Calls/Sessions.antt =====
-- src/ssh/scp.rs: from `connect` to `disconnect`.
use remotefs_rs_ssh.Prelude.{ℕ, append_assoc, ◌≡◌, false, some, ◌++◌, ◌∷◌, [], arith}
use remotefs_rs_ssh.Text.{Text, codes, newline, trim}
use remotefs_rs_ssh.Text.Trim.{newline_space, StartsSolid, trim_start_solid, trim_end_solid}
use remotefs_rs_ssh.Remotefs.{new, not_connected}
use remotefs_rs_ssh.Exec.{ok, err}
use remotefs_rs_ssh.Foreign.{world_steps}
use remotefs_rs_ssh.Host.{Host}
use remotefs_rs_ssh.Crates.{Crates}
use remotefs_rs_ssh.Ssh.Commons.Connect.{connect as connect_session}
use remotefs_rs_ssh.Ssh.Commons.Shell.{perform_shell_cmd}
use remotefs_rs_ssh.Ssh.Scp.Client
use remotefs_rs_ssh.Ssh.Scp.Client.{Scp, session_live}
use remotefs_rs_ssh.Ssh.Scp.Ops.ChangeDir.{Printed}
use remotefs_rs_ssh.Ssh.Scp.Calls.{Call, perform}
use remotefs_rs_ssh.Ssh.Scp.Calls.Offline.{NeedsConnection, perform_offline}

starts-append :
    (front : Text) (last : ℕ) (t : Text)
    → StartsSolid (front ++ last ∷ [])
    → StartsSolid ((front ++ last ∷ []) ++ t)
starts-append [] last t h = h
starts-append (c ∷ front) last t h = h

trim-Printed : (path : Text) → Printed path → trim (path ++ newline ∷ []) ≡ path
unfolding trim
trim-Printed path p = rw p.split (
    rw (trim_start_solid _ (starts-append p.front p.last (newline ∷ []) (rw p.split at p.starts)))
      (simp append_assoc (trim_end_solid p.front p.last newline p.last_solid newline_space)))

module _ (C : Crates) (H : Host) where
  -- Where the session is set up and its shell answers `pwd` with a path that begins and ends with
  -- no white space, the SCP `connect` returns the banner, and the client has that session and that
  -- working directory.
  pub connect-opened :
      (s : Scp H) (x : H.Session) (path : Text) (before after : H.World)
      → connect_session H s.client.opts s.world ≡ (ok x, before)
      → perform_shell_cmd H x (codes "pwd") before ≡ (ok (path ++ newline ∷ []), after)
      → Printed path
      → Client.connect H s ≡ (
        ok (H.banner x before),
        record s { client = record (s.client) { session = some x; wrkdir = path }; world = after },
      )
  unfolding Client.connect world_steps
  connect-opened s x path before after set_up answered p =
      rw (set_up, answered, trim-Printed path p)

  disconnect-session :
      (s : Scp H)
      → (Client.disconnect H s).0 ≡ ok tt
      → session_live H (Client.disconnect H s).1.client.session (Client.disconnect H s).1.world
        ≡ false
  unfolding Client.disconnect world_steps
  disconnect-session s h = ground arith

  -- After an SCP `disconnect` that succeeds, every call but `connect`, `disconnect` and `append`
  -- fails with `NotConnected` and changes nothing.
  pub perform-disconnect :
      (s : Scp H) (c : Call C.UnixPex)
      → (Client.disconnect H s).0 ≡ ok tt
      → NeedsConnection c
      → perform C H c (Client.disconnect H s).1
        ≡ (err (new not_connected), (Client.disconnect H s).1)
  perform-disconnect s c h needs =
      perform_offline C H (Client.disconnect H s).1 (disconnect-session s h) c needs
