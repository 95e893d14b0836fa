-- ===== src/Ssh/Sftp/Server/Refines.antt =====
-- src/ssh/sftp.rs: the calls on a server that holds files have the effects of their requests.
use remotefs_rs_ssh.Prelude.{◌≡◌, refl, subst, Bool, true, false, inl}
use remotefs_rs_ssh.Remotefs.{RemoteErrorType, new_ex}
use remotefs_rs_ssh.Foreign.{on_world, call}
use remotefs_rs_ssh.Text.{Text}
use remotefs_rs_ssh.Utils.{absolutize}
use remotefs_rs_ssh.Utils.Paths.{absolutize-absolutize}
use remotefs_rs_ssh.Exec.{Exec, discard}
use remotefs_rs_ssh.Host.{Host, Reply}
use remotefs_rs_ssh.Ssh.Stream.Writing
use remotefs_rs_ssh.Crates.{Crates}
use remotefs_rs_ssh.Ssh.Sftp.Client.{SftpState}
use remotefs_rs_ssh.Ssh.Sftp.Entry.{metadata_to_filestat}
use remotefs_rs_ssh.Ssh.Sftp.Ops
use remotefs_rs_ssh.Ssh.Sftp.Files as Transfers
use remotefs_rs_ssh.Ssh.Sftp.Server.{
  folder, link, Message, unlink, rmdir, mkdir, make_link, rename, set_attributes, open_file,
  Unlinked, DirRemoved, Made, Moved, OpenedFile, SameNodes, append_flags, create_flags,
}
use remotefs_rs_ssh.Ssh.Sftp.Server.Effect.{
  Report, done, failed, Request, remove_file, remove_dir, create_dir, symlink, mov, setstat, append,
  create, Effect, file_removed, file_kept, dir_removed, dir_kept, dir_created, dir_present,
  dir_refused, linked, link_dangling, link_refused, moved, move_missing, move_refused,
  attributes_set, attributes_kept, opened_at_end, append_refused, opened_empty, create_refused,
}
use remotefs_rs_ssh.Ssh.Sftp.Server.Contract.{Obeys, Answered, Refused}
use remotefs_rs_ssh.Ssh.Sftp.Server.Steps.{
  Opened, Files, IsLive, Leaves, mapped-Does, check-Leaves, with_sftp-Leaves, sftp_ref-Leaves,
  absolute-Leaves, discard-Leaves, guard_fails-Leaves, guard_passes-Leaves, later-Leaves,
}
use remotefs_rs_ssh.Ssh.Sftp.Server.Sees.{exists-Leaves, exists_or_false-Leaves}

module _ (C : Crates) (H : Host) where
  -- The request as the call of the client.
  abbrev pub request : Request C.UnixPex → Exec (SftpState H) (Unit {0})
  request (remove_file p) = Ops.remove_file C H p
  request (remove_dir p) = Ops.remove_dir C H p
  request (create_dir p mode) = Ops.create_dir C H p mode
  request (symlink p target) = Ops.symlink C H p target
  request (mov src dest) = Ops.mov C H src dest
  request (setstat p m) = Ops.setstat C H p m
  request (append p m) = discard (Transfers.append C H p m)
  request (create p m) = discard (Transfers.create C H p m)

module _ (C : Crates) {H : Host} (o : Opened H) where
  open o use {session, sftp, server, client, rooted}

  abbrev at : Text → Text
  at p = absolutize client.wrkdir p

  again : (p : Text) → at (at p) ≡ at p
  again p = absolutize-absolutize client.wrkdir client.wrkdir p (inl rooted)

  -- What the server tells of a path that was made absolute already.
  shown_again :
      (w : H.World) (p : Text) (b : Bool)
      → (server.view w).shown (at (at p)) ≡ b
      → (server.view w).shown (at p) ≡ b
  shown_again w p b h = subst (λ q. (server.view w).shown q ≡ b) (again p) h

  abbrev pub EffectOf : H.World → Request C.UnixPex → Report → Files o → Type 0
  EffectOf w r = Effect C H client.wrkdir (server.view w) r

  -- A refused message leaves the effect that changes nothing.
  refused :
      (m : Message) (r : Request C.UnixPex) (result : Report) (w : H.World)
      → ((server.view w).denied m ≡ true → EffectOf w r result (server.view w))
      → (u : Files o) → Refused H session sftp m (server.view w) u
      → EffectOf w r result u
  refused m r result w k u h = rw (h.1) (k h.0)

  -- A last message, in the files as they were when the call began.
  last-Leaves :
      {A : Type 0} (m : Message) (f : H.World → Reply A × H.World) (k : RemoteErrorType)
      (w w' : H.World) (P : Files o → Files o → Type 0) (r : Request C.UnixPex)
      → server.view w' ≡ server.view w
      → IsLive o w'
      → Obeys H session sftp server.view m (f w') w' P
      → ((u : Files o)
          → (server.view w).denied m ≡ false
          → P (server.view w) u
          → EffectOf w r done u)
      → ((server.view w).denied m ≡ true → EffectOf w r (failed k) (server.view w))
      → Leaves o (on_world (call (new_ex k) f)) w' (EffectOf w r)
  last-Leaves m f k w w' P r same live d on_done on_failed =
      later-Leaves o f k w w' (Answered H session sftp m P) (Refused H session sftp m)
        (EffectOf w r) same live d (λ u h. on_done u (h.0) (h.1))
        (refused m r (failed k) w on_failed)

  -- The files after an error that was raised before any message.
  unchanged :
      (r : Request C.UnixPex) (result : Report) (w w' : H.World)
      → server.view w' ≡ server.view w
      → EffectOf w r result (server.view w)
      → EffectOf w r result (server.view w')
  unchanged r result w w' same h = rw same h

  pub request-Leaves :
      (r : Request C.UnixPex) (w : H.World) → IsLive o w → Leaves o (request C H r) w (EffectOf w r)
  unfolding Ops.remove_file Ops.remove_dir Ops.create_dir Ops.symlink Ops.mov Ops.setstat
      Transfers.append Transfers.create
  request-Leaves (remove_file p) w live = with_sftp-Leaves o _ w _ (
      absolute-Leaves o p _ w _ (
        last-Leaves (unlink (at p)) _ _ w w (λ t u. Unlinked t u (at p)) _ refl live
          (server.unlink_law (at p) w) (file_removed p) (file_kept p)))
  request-Leaves (remove_dir p) w live = with_sftp-Leaves o _ w _ (
      absolute-Leaves o p _ w _ (
        last-Leaves (rmdir (at p)) _ _ w w (λ t u. DirRemoved t u (at p)) _ refl live
          (server.rmdir_law (at p) w) (dir_removed p) (dir_kept p)))
  request-Leaves (setstat p m) w live = with_sftp-Leaves o _ w _ (
      absolute-Leaves o p _ w _ (
        last-Leaves (set_attributes (at p) (metadata_to_filestat C m)) _ _ w w SameNodes _ refl live
          (server.setstat_law (at p) (metadata_to_filestat C m) w) (attributes_set p m)
          (attributes_kept p m)))
  request-Leaves (append p m) w live = discard-Leaves o _ w _ (
      with_sftp-Leaves o _ w _ (
        absolute-Leaves o p _ w _ (
          last-Leaves (open_file (at p) append_flags (Transfers.mode_of C H m)) _ _ w w
            (λ t u. OpenedFile t u (at p)) _ refl live
            (mapped-Does o Writing.from_file
              (H.sftp_open_mode sftp (at p) append_flags (Transfers.mode_of C H m)) w _ _
              (server.append_law (at p) (Transfers.mode_of C H m) w))
            (opened_at_end p m) (append_refused p m))))
  request-Leaves (create p m) w live = discard-Leaves o _ w _ (
      with_sftp-Leaves o _ w _ (
        absolute-Leaves o p _ w _ (
          last-Leaves (open_file (at p) create_flags (Transfers.mode_of C H m)) _ _ w w
            (λ t u. OpenedFile t u (at p)) _ refl live
            (mapped-Does o Writing.from_file
              (H.sftp_open_mode sftp (at p) create_flags (Transfers.mode_of C H m)) w _ _
              (server.create_law (at p) (Transfers.mode_of C H m) w))
            (opened_empty p m) (create_refused p m))))
  request-Leaves (create_dir p mode) w live = check-Leaves o _ w _ live (
      absolute-Leaves o p _ w _ (
        exists-Leaves C o (at p) _ w _ live
          (λ w' live' same shown.
            guard_fails-Leaves o _ _ w' _ live'
              (unchanged _ _ w w' same (dir_present p mode (shown_again w p true shown))))
          (λ w' live' same shown. guard_passes-Leaves o _ _ w' _ (
            sftp_ref-Leaves o _ w' _ (
              last-Leaves (mkdir (at p) (C.pex_bits mode)) _ _ w w' (λ t u. Made t u (at p) folder)
                _ same live' (server.mkdir_law (at p) (C.pex_bits mode) w')
                (λ u. dir_created p mode u (shown_again w p false shown))
                (dir_refused p mode (shown_again w p false shown)))))))
  request-Leaves (symlink p to) w live = check-Leaves o _ w _ live (
      absolute-Leaves o p _ w _ (
        exists-Leaves C o to _ w _ live
          (λ w' live' same shown. guard_passes-Leaves o _ _ w' _ (
            sftp_ref-Leaves o _ w' _ (
              last-Leaves (make_link to (at p)) _ _ w w' (λ t u. Made t u (at p) link) _ same live'
                (server.symlink_law to (at p) w') (λ u. linked p to u shown)
                (link_refused p to shown))))
          (λ w' live' same shown.
            guard_fails-Leaves o _ _ w' _ live'
              (unchanged _ _ w w' same (link_dangling p to shown)))))
  request-Leaves (mov src dest) w live = check-Leaves o _ w _ live (
      absolute-Leaves o src _ w _ (
        exists_or_false-Leaves C o (at src) _ w _ live
          (λ w' live' same shown. guard_passes-Leaves o _ _ w' _ (
            absolute-Leaves o dest _ w' _ (
              sftp_ref-Leaves o _ w' _ (
                last-Leaves (rename (at src) (at dest)) _ _ w w'
                  (λ t u. Moved t u (at src) (at dest)) _ same live'
                  (server.rename_law (at src) (at dest) w')
                  (λ u. moved src dest u (shown_again w src true shown))
                  (move_refused src dest (shown_again w src true shown))))))
          (λ w' live' same shown.
            guard_fails-Leaves o _ _ w' _ live'
              (unchanged _ _ w w' same (move_missing src dest (shown_again w src false shown))))))
