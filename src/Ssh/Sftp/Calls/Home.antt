-- ===== src/Ssh/Sftp/Calls/Home.antt =====
-- src/ssh/sftp.rs: where a client is after `connect`.
use remotefs_rs_ssh.Prelude.{◌≡◌, refl, ap, true, Option, some, inl, inr, arith}
use remotefs_rs_ssh.Text.{Text, codes}
use remotefs_rs_ssh.Exec.{Outcome, ok, err, panic, diverged}
use remotefs_rs_ssh.Foreign.{world_steps, Reply-cases}
use remotefs_rs_ssh.Host.{Host, answer}
use remotefs_rs_ssh.Ssh.Commons.Connect.{connect as connect_session}
use remotefs_rs_ssh.Ssh.Commons.Connect.Auth.{AuthHost, connect-authenticated}
use remotefs_rs_ssh.Ssh.Sftp.Client
use remotefs_rs_ssh.Ssh.Sftp.Client.{SftpState, check_connection, is_connected}

-- An authenticated session stays so while it is made blocking, opens a channel and resolves a path.
pub record StaysAuthenticated (H : Host) : Type 0 where
  pub blocking :
      (x : H.Session) (w : H.World)
      → H.authenticated x w ≡ true
      → H.authenticated x (H.set_blocking x true w) ≡ true
  pub channel :
      (x : H.Session) (w : H.World)
      → H.authenticated x w ≡ true
      → H.authenticated x (H.session_sftp x w).1 ≡ true
  pub resolving :
      (x : H.Session) (f : H.Sftp) (path : Text) (w : H.World)
      → H.authenticated x w ≡ true
      → H.authenticated x (H.sftp_realpath f path w).1 ≡ true

module _ (H : Host) where
  -- The client has a channel of a session that is authenticated, and `pwd` tells what the server
  -- resolved `.` to.
  pub record AtHome (s : SftpState H) : Type 0 where
    pub session : H.Session
    pub channel : H.Sftp
    pub home : Text
    pub opening : H.World
    pub resolving : H.World
    pub has_session : s.client.session ≡ some session
    pub has_channel : s.client.sftp ≡ some channel
    pub opened : (H.session_sftp session opening).0 ≡ answer channel
    pub resolved : (H.sftp_realpath channel (codes ".") resolving).0 ≡ answer home
    pub live : H.authenticated session s.world ≡ true
    pub told : Client.pwd H s ≡ (ok home, s)

  pwd_told :
      (x : H.Session) (s : SftpState H)
      → s.client.session ≡ some x
      → H.authenticated x s.world ≡ true
      → Client.pwd H s ≡ (ok s.client.wrkdir, s)
  unfolding Client.pwd check_connection is_connected world_steps
  pwd_told x s there live = rw (there, live)

  module _ (auth : AuthHost H) (stays : StaysAuthenticated H) (s : SftpState H)
      (b : Option Text) where
    abbrev entered : H.Session → H.Sftp → Text → H.World → SftpState H
    entered x f path w = record s {
      client = record (s.client) { session = some x; sftp = some f; wrkdir = path };
      world = w;
    }

    -- From a session that was set up.
    from_session :
        (r : Outcome H.Session) (before : H.World)
        → connect_session H s.client.opts s.world ≡ (r, before)
        → (Client.connect H s).0 ≡ ok b
        → AtHome (Client.connect H s).1
    unfolding Client.connect world_steps
    from_session (err e) before set_up h = ground (arith, (rw set_up at h))
    from_session panic before set_up h = ground (arith, (rw set_up at h))
    from_session diverged before set_up h = ground (arith, (rw set_up at h))
    from_session (ok x) before set_up h =
        let w1 = H.set_blocking x true before in
        let c = H.session_sftp x w1 in
        elim (Reply-cases c.0) [
          | inr (t, e) ↦ ground (arith, (rw (set_up, e) at h))
          | inl (f, e) ↦ elim (Reply-cases (H.sftp_realpath f (codes ".") c.1).0) [
            | inr (t, k) ↦ ground (arith, (rw (set_up, e, k) at h))
            | inl (path, k) ↦
                let live = stays.resolving x f (codes ".") c.1 (
                  stays.channel x w1 (
                    stays.blocking x before (
                      rw set_up at (
                        connect-authenticated H auth s.client.opts s.world x
                          (ap (λ o. o.0) set_up))))) in
                rw (set_up, e, k)
                  (record {
                    session = x;
                    channel = f;
                    home = path;
                    opening = w1;
                    resolving = c.1;
                    has_session = refl;
                    has_channel = refl;
                    opened = e;
                    resolved = k;
                    live = live;
                    told =
                        pwd_told x (entered x f path (H.sftp_realpath f (codes ".") c.1).1) refl
                          live;
                  })
          ]
        ]

  -- Where the SFTP `connect` returns a banner, from whatever state, the client has a channel that
  -- its session opened, that session is authenticated, and `pwd` returns what the server resolved
  -- `.` to on that channel. Each way to authenticate that succeeds leaves its session
  -- authenticated, and it stays so while it is made blocking, opens a channel and resolves a path.
  pub sftp_connect-AtHome :
      AuthHost H
      → StaysAuthenticated H
      → (s : SftpState H) (b : Option Text) → (Client.connect H s).0 ≡ ok b
      → AtHome (Client.connect H s).1
  sftp_connect-AtHome auth stays s b h =
      from_session auth stays s b (connect_session H s.client.opts s.world).0
        (connect_session H s.client.opts s.world).1 refl h
