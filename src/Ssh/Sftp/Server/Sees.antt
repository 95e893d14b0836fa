-- ===== src/Ssh/Sftp/Server/Sees.antt =====
-- src/ssh/sftp.rs: `exists` on a server that holds files.
use remotefs_rs_ssh.Prelude.{
  ◌≡◌, ◌∙◌, refl, ap, Bool, true, false, none, some, inl, inr, Bool-cases,
}
use remotefs_rs_ssh.Text.{Text}
use remotefs_rs_ssh.Utils.{absolutize}
use remotefs_rs_ssh.Remotefs.{File, new_ex, no_such_file_or_directory}
use remotefs_rs_ssh.Exec.{Exec, ok, err, steps, ◌>>=◌}
use remotefs_rs_ssh.Foreign.{world_steps, on_world, call, Reply-cases}
use remotefs_rs_ssh.Host.{Host, FileStat, answer, failure}
use remotefs_rs_ssh.Crates.{Crates}
use remotefs_rs_ssh.Ssh.Sftp.Client.{SftpState, absolute, given_sftp}
use remotefs_rs_ssh.Ssh.Sftp.Entry.{make_fsentry, fsentry}
use remotefs_rs_ssh.Ssh.Sftp.Ops.{stat, exists, exists_or_false}
use remotefs_rs_ssh.Ssh.Sftp.Server.Effect.{Report}
use remotefs_rs_ssh.Ssh.Sftp.Server.Steps.{Opened, Files, in_world, IsLive, Leaves, same-Leaves}

module _ (C : Crates) {H : Host} (o : Opened H) where
  open o use {session, sftp, server, client, open_session, open_sftp}

  abbrev pub here : H.World → SftpState H
  here w = in_world o w

  abbrev pub Alive : H.World → Type 0
  Alive w = IsLive o w

  abbrev pub LeavesHere :
      {A : Type 0} → Exec (SftpState H) A → H.World → (Report → Files o → Type 0) → Type 0
  LeavesHere m w E = Leaves o m w E

  -- The answer of `exists`: whether the path is shown.
  record Sees (p : Text) (w : H.World) : Type 0 where
    pub found : Bool
    pub after : H.World
    pub returns : exists C H p (here w) ≡ (ok found, here after)
    pub live : Alive after
    pub same : server.view after ≡ server.view w
    pub told : (server.view w).shown (absolutize client.wrkdir p) ≡ found

  -- The entry of a path is made without an error.
  record Made (p : Text) (st : FileStat) (w : H.World) : Type 0 where
    pub entry : File C.UnixPex
    pub after : H.World
    pub returns : make_fsentry C H p st (here w) ≡ (ok entry, here after)
    pub live : Alive after
    pub same : server.view after ≡ server.view w

  make_fsentry-Made : (p : Text) (st : FileStat) (w : H.World) → Alive w → Made p st w
  unfolding make_fsentry world_steps
  make_fsentry-Made p st w live =
      let d = server.readlink_law p w in
      elim (Bool-cases (H.stat_is_symlink st)) [
        | inl link ↦ elim (Reply-cases (H.sftp_readlink sftp p w).0) [
          | inl (target, e) ↦ record {
            entry = fsentry C H p st (some target);
            after = (H.sftp_readlink sftp p w).1;
            returns = rw (link, open_sftp, e);
            live = d.live ∙ live;
            same = d.on_answer target e;
          }
          | inr (text, e) ↦ record {
            entry = fsentry C H p st none;
            after = (H.sftp_readlink sftp p w).1;
            returns = rw (link, open_sftp, e);
            live = d.live ∙ live;
            same = d.on_failure text e;
          }
        ]
        | inr other ↦ record {
          entry = fsentry C H p st none;
          after = w;
          returns = rw other;
          live = live;
          same = refl;
        }
      ]

  abbrev stat_here : Text → H.Sftp → Exec (SftpState H) (File C.UnixPex)
  stat_here p y = do
    p' ← absolute H p
    attributes ← on_world (call (new_ex no_such_file_or_directory) (H.sftp_stat y p'))
    make_fsentry C H p' attributes

  stat_there : (p : Text) (w : H.World) → stat C H p (here w) ≡ stat_here p sftp (here w)
  unfolding stat steps
  stat_there p w = ap (λ o. given_sftp H (stat_here p) o (here w)) open_sftp

  stat-Made :
      (p : Text) (st : FileStat) (w : H.World)
      → (H.sftp_stat sftp (absolutize client.wrkdir p) w).0 ≡ answer st
      → (m : Made
          (absolutize client.wrkdir p)
          st
          (H.sftp_stat sftp (absolutize client.wrkdir p) w).1)
      → stat C H p (here w) ≡ (ok m.entry, here m.after)
  unfolding world_steps
  stat-Made p st w e m = stat_there p w ∙ rw (e, m.returns)

  stat_failed :
      (p text : Text) (w : H.World)
      → (H.sftp_stat sftp (absolutize client.wrkdir p) w).0 ≡ failure text
      → stat C H p (here w) ≡ (
        err (new_ex no_such_file_or_directory text),
        here (H.sftp_stat sftp (absolutize client.wrkdir p) w).1,
      )
  unfolding world_steps
  stat_failed p text w e = stat_there p w ∙ rw e

  exists-Sees : (p : Text) (w : H.World) → Alive w → Sees p w
  unfolding exists world_steps
  exists-Sees p w live =
      let q = absolutize client.wrkdir p in
      let d = server.stat_law q w in
      elim (Reply-cases (H.sftp_stat sftp q w).0) [
        | inl (st, e) ↦
            let m = make_fsentry-Made q st (H.sftp_stat sftp q w).1 (d.live ∙ live) in
            let seen = d.on_answer st e in
            record {
              found = true;
              after = m.after;
              returns = rw (stat-Made p st w e m);
              live = m.live;
              same = m.same ∙ seen.1;
              told = seen.0;
            }
        | inr (text, e) ↦ record {
          found = false;
          after = (H.sftp_stat sftp q w).1;
          returns = rw (stat_failed p text w e);
          live = d.live ∙ live;
          same = (d.on_failure text e).1;
          told = (d.on_failure text e).0;
        }
      ]

  exists_or_false-Sees :
      (p : Text) (w : H.World) (seen : Sees p w)
      → exists_or_false C H p (here w) ≡ (ok seen.found, here seen.after)
  unfolding steps
  exists_or_false-Sees p w seen = rw (seen.returns)

  -- After a question whether a path exists: one way where it is shown, and one where it is not.
  -- The files are as they were.
  asked-Leaves :
      {A : Type 0} (p : Text) (m : Exec (SftpState H) Bool) (k : Bool → Exec (SftpState H) A)
      (w : H.World) (E : Report → Files o → Type 0) (seen : Sees p w)
      → m (here w) ≡ (ok seen.found, here seen.after)
      → ((w' : H.World)
          → Alive w'
          → server.view w' ≡ server.view w
          → (server.view w).shown (absolutize client.wrkdir p) ≡ true
          → LeavesHere (k true) w' E)
      → ((w' : H.World)
          → Alive w'
          → server.view w' ≡ server.view w
          → (server.view w).shown (absolutize client.wrkdir p) ≡ false
          → LeavesHere (k false) w' E)
      → LeavesHere (m >>= k) w E
  unfolding steps
  asked-Leaves p m k w E seen e on_found on_missing = elim (Bool-cases seen.found) [
    | inl found ↦
        same-Leaves o (m >>= k) (k true) w seen.after E (rw (e, found))
          (on_found seen.after seen.live seen.same (seen.told ∙ found))
    | inr missing ↦
        same-Leaves o (m >>= k) (k false) w seen.after E (rw (e, missing))
          (on_missing seen.after seen.live seen.same (seen.told ∙ missing))
  ]

  module _ {A : Type 0} (p : Text) (k : Bool → Exec (SftpState H) A) (w : H.World)
      (E : Report → Files o → Type 0) (live : Alive w)
      (on_found : (w' : H.World)
        → Alive w'
        → server.view w' ≡ server.view w
        → (server.view w).shown (absolutize client.wrkdir p) ≡ true
        → LeavesHere (k true) w' E)
      (on_missing : (w' : H.World)
        → Alive w'
        → server.view w' ≡ server.view w
        → (server.view w).shown (absolutize client.wrkdir p) ≡ false
        → LeavesHere (k false) w' E) where
    pub exists-Leaves : LeavesHere (exists C H p >>= k) w E
    exists-Leaves =
        let seen = exists-Sees p w live in
        asked-Leaves p (exists C H p) k w E seen seen.returns on_found on_missing

    pub exists_or_false-Leaves : LeavesHere (exists_or_false C H p >>= k) w E
    exists_or_false-Leaves =
        let seen = exists-Sees p w live in
        asked-Leaves p (exists_or_false C H p) k w E seen (exists_or_false-Sees p w seen) on_found
          on_missing
