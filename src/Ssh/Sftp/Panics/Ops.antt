-- ===== src/Ssh/Sftp/Panics/Ops.antt =====
-- src/ssh/sftp.rs, panics: the operations on the tree, and opening files.
use remotefs_rs_ssh.Prelude.{refl, Bool, true, false, Option, none, some, List, [], ◌∷◌}
use remotefs_rs_ssh.Text.{Text}
use remotefs_rs_ssh.Remotefs.{
  RemoteError, RemoteErrorType, Metadata, File, no_such_file_or_directory, is_dir,
}
use remotefs_rs_ssh.Exec.{Exec, modify}
use remotefs_rs_ssh.Exec.Calm.{
  Calm, Calm-pure, Calm-bind, Calm-raise, Calm-modify, Calm-if, Calm-gets, calm_rules,
}
use remotefs_rs_ssh.Foreign.{on_world, call}
use remotefs_rs_ssh.Host.{Host, FileStat, Reply}
use remotefs_rs_ssh.Crates.{Crates}
use remotefs_rs_ssh.Ssh.Sftp.Client.{SftpState, given_sftp, set_wrkdir, set_handles}
use remotefs_rs_ssh.Ssh.Sftp.Entry
use remotefs_rs_ssh.Ssh.Sftp.Client
use remotefs_rs_ssh.Ssh.Sftp.Ops
use remotefs_rs_ssh.Ssh.Sftp.Files
use remotefs_rs_ssh.Ssh.Sftp.Calls.{}
use remotefs_rs_ssh.Ssh.Sftp.Calls.Handles.{IsPaired}
use remotefs_rs_ssh.Ssh.Sftp.Panics.{
  HasBoth, OnClient, Paired, call-Calm, given_sftp-Calm, check-Calm, with_sftp-Calm, sftp_ref-Calm,
}

module _ (C : Crates) (H : Host) where
  -- Both handles, on the state.
  abbrev Both : SftpState H → Type 0
  Both = OnClient H (HasBoth H)

  pub call-Both-Calm :
      {A : Type 0} (k : Text → RemoteError) (f : H.World → Reply A × H.World)
      → Calm Both (on_world (call k f))
  call-Both-Calm k f = call-Calm H (HasBoth H) k f

  pub link_of-Calm : (path : Text) (b : Bool) → Calm Both (Entry.link_of C H path b)
  link_of-Calm path false = search calm_rules
  link_of-Calm path true = sftp_ref-Calm H _ (λ x. search (calm_rules, call-Both-Calm))

  pub make_fsentry-Calm : (path : Text) (st : FileStat) → Calm Both (Entry.make_fsentry C H path st)
  unfolding Entry.make_fsentry
  make_fsentry-Calm path st = search (calm_rules, link_of-Calm)

  pub make_fsentries-Calm : (l : List (Text × FileStat)) → Calm Both (Entry.make_fsentries C H l)
  unfolding Entry.make_fsentries
  make_fsentries-Calm [] = search calm_rules
  make_fsentries-Calm ((p, st) ∷ l) =
      Calm-bind _ _ _ (make_fsentry-Calm p st)
        (λ f. Calm-bind _ _ _ (make_fsentries-Calm l) (λ fs. Calm-pure _ _))

  pub given-Both-Calm :
      {A : Type 0} (f : H.Sftp → Exec (SftpState H) A) (o : Option H.Sftp)
      → ((x : H.Sftp) → Calm Both (f x))
      → Calm Both (given_sftp H f o)
  given-Both-Calm f o h = given_sftp-Calm H Both f o h

  pub stat-Calm : (p : Text) → Calm Both (Ops.stat C H p)
  unfolding Ops.stat
  stat-Calm p = search (calm_rules, given-Both-Calm, call-Both-Calm, make_fsentry-Calm) depth 12

  pub missing-Calm :
      (P : SftpState H → Type 0) (k : RemoteErrorType) (e : RemoteError)
      → Calm P (Ops.missing C H k e)
  missing-Calm P no_such_file_or_directory e = search calm_rules
  missing-Calm P _ e = search calm_rules

  pub exists-Calm : (p : Text) → Calm Both (Ops.exists C H p)
  unfolding Ops.exists
  exists-Calm p = search (calm_rules, stat-Calm, missing-Calm)

  pub exists_or_false-Calm : (p : Text) → Calm Both (Ops.exists_or_false C H p)
  exists_or_false-Calm p = search (calm_rules, exists-Calm)

  abbrev AllPaired : SftpState H → Type 0
  AllPaired = Paired H

  pub call_paired-Calm :
      {A : Type 0} (k : Text → RemoteError) (f : H.World → Reply A × H.World)
      → Calm AllPaired (on_world (call k f))
  call_paired-Calm k f = call-Calm H IsPaired k f

  pub stat_paired-Calm : (p : Text) → Calm AllPaired (Ops.stat C H p)
  unfolding Ops.stat
  stat_paired-Calm p =
      with_sftp-Calm H _ (λ x. search (calm_rules, call-Both-Calm, make_fsentry-Calm) depth 12)

  pub append-Calm : (p : Text) (m : Metadata C.UnixPex) → Calm AllPaired (Files.append C H p m)
  unfolding Files.append
  append-Calm p m = with_sftp-Calm H _ (λ x. search (calm_rules, call-Both-Calm))

  pub create-Calm : (p : Text) (m : Metadata C.UnixPex) → Calm AllPaired (Files.create C H p m)
  unfolding Files.create
  create-Calm p m = with_sftp-Calm H _ (λ x. search (calm_rules, call-Both-Calm))

  pub open_read-Calm : (p : Text) → Calm AllPaired (Files.open_read C H p)
  unfolding Files.open_read
  open_read-Calm p =
      check-Calm H _
        (search (calm_rules, exists_or_false-Calm, sftp_ref-Calm, call-Both-Calm) depth 12)

  set_wrkdir-HasBoth : (d : Text) (s : SftpState H) → Both s → Both (set_wrkdir H d s)
  set_wrkdir-HasBoth d s h = record {
    session = h.session;
    sftp = h.sftp;
    open_session = h.open_session;
    open_sftp = h.open_sftp;
  }

  pub enter_dir-Calm : (d : Text) (f : File C.UnixPex) → Calm Both (Ops.enter_dir C H d f)
  enter_dir-Calm d f =
      Calm-if _ (is_dir f) _ _
        (Calm-bind _ _ _ (Calm-modify Both (set_wrkdir H d) (set_wrkdir-HasBoth d))
          (λ u. Calm-gets _ _))
        (Calm-raise _ _)

  pub change_dir-Calm : (d : Text) → Calm AllPaired (Ops.change_dir C H d)
  unfolding Ops.change_dir
  change_dir-Calm d = check-Calm H _ (search (calm_rules, stat-Calm, enter_dir-Calm))

  pub pwd-Calm : Calm AllPaired (Client.pwd H)
  unfolding Client.pwd
  pwd-Calm = check-Calm H _ (search calm_rules)

  pub close-Calm : Calm AllPaired (modify (set_handles H none none))
  close-Calm = Calm-modify _ _ (λ s h. refl)

  pub disconnect_session-Calm :
      (o : Option H.Session) → Calm AllPaired (Client.disconnect_session H o)
  disconnect_session-Calm none = search calm_rules
  disconnect_session-Calm (some x) = search (calm_rules, call_paired-Calm, close-Calm)

  pub disconnect-Calm : Calm AllPaired (Client.disconnect H)
  unfolding Client.disconnect
  disconnect-Calm = search (calm_rules, disconnect_session-Calm)

  pub list_dir-Calm : (p : Text) → Calm AllPaired (Ops.list_dir C H p)
  unfolding Ops.list_dir
  list_dir-Calm p =
      with_sftp-Calm H _ (λ x. search (calm_rules, call-Both-Calm, make_fsentries-Calm) depth 12)

  pub setstat-Calm : (p : Text) (m : Metadata C.UnixPex) → Calm AllPaired (Ops.setstat C H p m)
  unfolding Ops.setstat
  setstat-Calm p m = with_sftp-Calm H _ (λ x. search (calm_rules, call-Both-Calm))

  pub remove_file-Calm : (p : Text) → Calm AllPaired (Ops.remove_file C H p)
  unfolding Ops.remove_file
  remove_file-Calm p = with_sftp-Calm H _ (λ x. search (calm_rules, call-Both-Calm))

  pub remove_dir-Calm : (p : Text) → Calm AllPaired (Ops.remove_dir C H p)
  unfolding Ops.remove_dir
  remove_dir-Calm p = with_sftp-Calm H _ (λ x. search (calm_rules, call-Both-Calm))

  pub create_dir-Calm : (p : Text) (mode : C.UnixPex) → Calm AllPaired (Ops.create_dir C H p mode)
  unfolding Ops.create_dir
  create_dir-Calm p mode =
      check-Calm H _ (search (calm_rules, exists-Calm, sftp_ref-Calm, call-Both-Calm) depth 12)

  pub symlink-Calm : (p target : Text) → Calm AllPaired (Ops.symlink C H p target)
  unfolding Ops.symlink
  symlink-Calm p target =
      check-Calm H _ (search (calm_rules, exists-Calm, sftp_ref-Calm, call-Both-Calm) depth 12)

  pub mov-Calm : (src dest : Text) → Calm AllPaired (Ops.mov C H src dest)
  unfolding Ops.mov
  mov-Calm src dest =
      check-Calm H _
        (search (calm_rules, exists_or_false-Calm, sftp_ref-Calm, call-Both-Calm) depth 14)

  pub exists_paired-Calm : (p : Text) → Calm AllPaired (Ops.exists C H p)
  unfolding Ops.exists
  exists_paired-Calm p = search (calm_rules, stat_paired-Calm, missing-Calm)
