-- ===== src/Ssh/Sftp/Server/Steps.antt =====
-- src/ssh/sftp.rs: the parts of a call, on a server that holds files.
use remotefs_rs_ssh.Prelude.{◌≡◌, ◌∙◌, refl, subst, true, arith, false, some, inl, inr}
use remotefs_rs_ssh.Text.{Text}
use remotefs_rs_ssh.FilePath.{is_absolute}
use remotefs_rs_ssh.Utils.{absolutize}
use remotefs_rs_ssh.Remotefs.{RemoteErrorType, RemoteError, new_ex}
use remotefs_rs_ssh.Exec.{
  Exec, Outcome, ok, err, panic, diverged, branch, steps, ◌>>=◌, ◌>>◌, guard, discard, pure, raise,
}
use remotefs_rs_ssh.Foreign.{world_steps, on_world, call, mapped, Reply-cases}
use remotefs_rs_ssh.Host.{Host, Reply}
use remotefs_rs_ssh.Ssh.Sftp.Client.{
  SftpFs, SftpState, check_connection, is_connected, absolute, with_sftp, sftp_ref,
}
use remotefs_rs_ssh.Ssh.Sftp.Server.{View}
use remotefs_rs_ssh.Ssh.Sftp.Server.Effect.{Report, done, failed, report}
use remotefs_rs_ssh.Ssh.Sftp.Server.Contract.{Does, Server}

module _ {S A : Type 0} where
  -- A dropped result changes neither the report nor the state.
  state-branch : (r : Outcome A) (t : S) → (branch (λ a. pure tt) (raise {A = Unit {0}}) r t).1 ≡ t
  unfolding steps
  state-branch (ok a) t = refl
  state-branch (err e) t = refl
  state-branch panic t = refl
  state-branch diverged t = refl

  report-branch :
      (r : Outcome A) (t : S)
      → report (branch (λ a. pure tt) (raise {A = Unit {0}}) r t).0 ≡ report r
  unfolding steps
  report-branch (ok a) t = refl
  report-branch (err e) t = refl
  report-branch panic t = refl
  report-branch diverged t = refl

-- A client with an open session and an SFTP channel to a server that holds files.
pub record Opened (H : Host) : Type 1 where
  pub session : H.Session
  pub sftp : H.Sftp
  pub server : Server H session sftp
  pub client : SftpFs H
  pub open_session : client.session ≡ some session
  pub open_sftp : client.sftp ≡ some sftp
  pub rooted : is_absolute client.wrkdir ≡ true

module _ {H : Host} (o : Opened H) where
  open o use {session, sftp, server, client, open_session, open_sftp}

  -- The files that the server holds.
  abbrev pub Files : Type 0
  Files = View server.Entry

  abbrev pub in_world : H.World → SftpState H
  in_world w = record { client = client; world = w }

  -- In a world in which the session is live the action keeps the client and the session, and what
  -- it reports and leaves of the files is as told.
  pub record Leaves {A : Type 0} (m : Exec (SftpState H) A) (w : H.World)
      (E : Report → Files → Type 0) : Type 0 where
    pub client_kept : (m (in_world w)).1.client ≡ client
    pub live : H.authenticated session (m (in_world w)).1.world ≡ true
    pub effect : E (report (m (in_world w)).0) (server.view (m (in_world w)).1.world)

  abbrev pub IsLive : H.World → Type 0
  IsLive w = H.authenticated session w ≡ true

  pub call-Leaves :
      {A : Type 0} (f : H.World → Reply A × H.World) (k : RemoteErrorType) (w : H.World)
      (P Q : Files → Type 0) (E : Report → Files → Type 0)
      → IsLive w
      → Does H session sftp server.view (f w) w P Q
      → ((u : Files) → P u → E done u)
      → ((u : Files) → Q u → E (failed k) u)
      → Leaves (on_world (call (new_ex k) f)) w E
  unfolding world_steps
  call-Leaves f k w P Q E live d on_done on_failed = elim (Reply-cases (f w).0) [
    | inl (a, e) ↦ record {
      client_kept = refl;
      live = d.live ∙ live;
      effect = rw e (on_done (server.view (f w).1) (d.on_answer a e));
    }
    | inr (text, e) ↦ record {
      client_kept = refl;
      live = d.live ∙ live;
      effect = rw e (on_failed (server.view (f w).1) (d.on_failure text e));
    }
  ]

  -- What an operation does to the files, whatever its answer is made into.
  pub mapped-Does :
      {A B : Type 0} (g : A → B) (f : H.World → Reply A × H.World) (w : H.World)
      (P Q : Files → Type 0)
      → Does H session sftp server.view (f w) w P Q
      → Does H session sftp server.view (mapped g f w) w P Q
  mapped-Does g f w P Q d = elim (Reply-cases (f w).0) [
    | inl (a, e) ↦ record {
      live = d.live;
      on_answer = λ b h. d.on_answer a e;
      on_failure = λ t h. ground (arith, (rw e at h));
    }
    | inr (t, e) ↦ record {
      live = d.live;
      on_answer = λ b h. ground (arith, (rw e at h));
      on_failure = λ t' h. d.on_failure t e;
    }
  ]

  -- An action that runs as another one, from another world.
  pub same-Leaves :
      {A : Type 0} (m n : Exec (SftpState H) A) (w w' : H.World) (E : Report → Files → Type 0)
      → m (in_world w) ≡ n (in_world w')
      → Leaves n w' E
      → Leaves m w E
  same-Leaves m n w w' E e h = record {
    client_kept = rw e h.client_kept;
    live = rw e h.live;
    effect = rw e h.effect;
  }

  pub check-Leaves :
      {A : Type 0} (m : Exec (SftpState H) A) (w : H.World) (E : Report → Files → Type 0)
      → IsLive w
      → Leaves m w E
      → Leaves (check_connection H >> m) w E
  unfolding check_connection is_connected steps
  check-Leaves m w E live h =
      same-Leaves (check_connection H >> m) m w w E (rw (open_session, live)) h

  pub with_sftp-Leaves :
      {A : Type 0} (k : H.Sftp → Exec (SftpState H) A) (w : H.World) (E : Report → Files → Type 0)
      → Leaves (k sftp) w E
      → Leaves (with_sftp H k) w E
  unfolding steps
  with_sftp-Leaves k w E h = same-Leaves (with_sftp H k) (k sftp) w w E (rw open_sftp) h

  pub sftp_ref-Leaves :
      {A : Type 0} (k : H.Sftp → Exec (SftpState H) A) (w : H.World) (E : Report → Files → Type 0)
      → Leaves (k sftp) w E
      → Leaves (sftp_ref H >>= k) w E
  unfolding steps
  sftp_ref-Leaves k w E h = same-Leaves (sftp_ref H >>= k) (k sftp) w w E (rw open_sftp) h

  pub absolute-Leaves :
      {A : Type 0} (p : Text) (k : Text → Exec (SftpState H) A) (w : H.World)
      (E : Report → Files → Type 0)
      → Leaves (k (absolutize client.wrkdir p)) w E
      → Leaves (absolute H p >>= k) w E
  unfolding steps
  absolute-Leaves p k w E h =
      same-Leaves (absolute H p >>= k) (k (absolutize client.wrkdir p)) w w E refl h

  -- An error that the client raises by itself.
  pub raise-Leaves :
      {A : Type 0} (e : RemoteError) (w : H.World) (E : Report → Files → Type 0)
      → IsLive w
      → E (failed e.kind) (server.view w)
      → Leaves (raise {A = A} e) w E
  unfolding steps
  raise-Leaves e w E live h = record { client_kept = refl; live = live; effect = h }

  pub discard-Leaves :
      {A : Type 0} (m : Exec (SftpState H) A) (w : H.World) (E : Report → Files → Type 0)
      → Leaves m w E
      → Leaves (discard m) w E
  unfolding steps
  discard-Leaves m w E h = record {
    client_kept = rw (state-branch (m (in_world w)).0 (m (in_world w)).1) h.client_kept;
    live = rw (state-branch (m (in_world w)).0 (m (in_world w)).1) h.live;
    effect =
        rw
          (
            report-branch (m (in_world w)).0 (m (in_world w)).1,
            state-branch (m (in_world w)).0 (m (in_world w)).1,
          )
          h.effect;
  }

  pub guard_fails-Leaves :
      {A : Type 0} (e : RemoteError) (m : Exec (SftpState H) A) (w : H.World)
      (E : Report → Files → Type 0)
      → IsLive w
      → E (failed e.kind) (server.view w)
      → Leaves (guard false e >> m) w E
  unfolding steps
  guard_fails-Leaves e m w E live h = record { client_kept = refl; live = live; effect = h }

  pub guard_passes-Leaves :
      {A : Type 0} (e : RemoteError) (m : Exec (SftpState H) A) (w : H.World)
      (E : Report → Files → Type 0)
      → Leaves m w E
      → Leaves (guard true e >> m) w E
  unfolding steps
  guard_passes-Leaves e m w E h = same-Leaves (guard true e >> m) m w w E refl h

  -- A last call behind others that left the files as they were.
  pub later-Leaves :
      {A : Type 0} (f : H.World → Reply A × H.World) (k : RemoteErrorType) (w w' : H.World)
      (P Q : Files → Files → Type 0) (E : Report → Files → Type 0)
      → server.view w' ≡ server.view w
      → IsLive w'
      → Does H session sftp server.view (f w') w' (P (server.view w')) (Q (server.view w'))
      → ((u : Files) → P (server.view w) u → E done u)
      → ((u : Files) → Q (server.view w) u → E (failed k) u)
      → Leaves (on_world (call (new_ex k) f)) w' E
  later-Leaves f k w w' P Q E same live d on_done on_failed =
      call-Leaves f k w' (P (server.view w')) (Q (server.view w')) E live d
        (λ u h. on_done u (subst (λ t. P t u) same h))
        (λ u h. on_failed u (subst (λ t. Q t u) same h))
