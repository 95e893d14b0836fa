-- ===== src/Ssh/Sftp/Calls/History.antt =====
-- src/ssh/sftp.rs: a client from its making on, in a world that also moves by itself.
use remotefs_rs_ssh.Prelude.{ℕ, true, some, ◌≡◌, refl, subst}
use remotefs_rs_ssh.Text.{Text}
use remotefs_rs_ssh.Exec.{Exec, panic, discard, modify}
use remotefs_rs_ssh.Exec.Calm.{NoPanic, Calm, Calm-bind, Calm-modify, Calm-pure, calm_rules}
use remotefs_rs_ssh.Foreign.{on_world, world_steps}
use remotefs_rs_ssh.Host.{Host}
use remotefs_rs_ssh.Crates.{Crates}
use remotefs_rs_ssh.Ssh.Opts.{SshOpts}
use remotefs_rs_ssh.Ssh.Commons.Connect.{connect as connect_session}
use remotefs_rs_ssh.Ssh.Commons.Connect.Calm.{connect-Calm}
use remotefs_rs_ssh.Ssh.Sftp.Client
use remotefs_rs_ssh.Ssh.Sftp.Client.{SftpState, new_client, set_handles, set_wrkdir}
use remotefs_rs_ssh.Ssh.Sftp.Calls.{
  Call, CallOf, connect, disconnect, pwd, change_dir, list_dir, stat, exists, remove_file,
  remove_dir, open_read, exec, symlink, copy, mov, create_dir, setstat, append, create, append_file,
  create_file, open_file, perform,
}
use remotefs_rs_ssh.Ssh.Sftp.Calls.Handles.{IsPaired, perform-IsPaired}
use remotefs_rs_ssh.Ssh.Sftp.Panics.{Paired}
use remotefs_rs_ssh.Ssh.Sftp.Panics.Ops.{call_paired-Calm}
use remotefs_rs_ssh.Ssh.Sftp.Panics.Ops as Quiet
use remotefs_rs_ssh.Ssh.Sftp.Panics.Transfers
use remotefs_rs_ssh.Ssh.Sftp.Panics.Transfers.{Dependable, on_world-Calm}

-- The calls that read no exit code from the output of a command.
abbrev pub ReadsNoExitCode : {UnixPex R W : Type 0} → Call UnixPex R W → Type 0
ReadsNoExitCode (exec cmd) = ⊥
ReadsNoExitCode (copy src dest) = ⊥
ReadsNoExitCode _ = Unit

module _ (C : Crates) (H : Host) where
  -- What calls lead to, while the world may also change between them.
  pub data Reached : SftpState H → Type 0 where
    created :
        (o : SshOpts H.ParseRule) (w : H.World)
        → Reached (record { client = new_client H o; world = w })
    called :
        (writes rounds : ℕ) (c : CallOf C H) (s : SftpState H)
        → Reached s
        → Reached (perform C H writes rounds c s).1
    elapsed : (w : H.World) (s : SftpState H) → Reached s → Reached (record s { world = w })

  pub Reached-IsPaired : (s : SftpState H) → Reached s → IsPaired s.client
  Reached-IsPaired _ (created o w) = refl
  Reached-IsPaired _ (called writes rounds c s h) =
      perform-IsPaired C H writes rounds c s (Reached-IsPaired s h)
  Reached-IsPaired _ (elapsed w s h) = Reached-IsPaired s h

  session-Calm : (o : SshOpts H.ParseRule) → Calm (Paired H) (on_world (connect_session H o))
  session-Calm o = on_world-Calm H (connect_session H o) (λ w. ((connect-Calm H o).at w tt).0)

  set_wrkdir-Calm : (d : Text) → Calm (Paired H) (modify (set_wrkdir H d))
  set_wrkdir-Calm d = Calm-modify _ _ (λ s h. h)

  open_handles-Calm :
      (x : H.Session) (f : H.Sftp) → Calm (Paired H) (modify (set_handles H (some x) (some f)))
  open_handles-Calm x f = Calm-modify _ _ (λ s h. refl)

  set_blocking-Calm : (x : H.Session) → Calm (Paired H) (on_world (modify (H.set_blocking x true)))
  unfolding world_steps
  set_blocking-Calm x = record { at = λ s h. (tt, h) }

  connect_client-Calm : Calm (Paired H) (Client.connect H)
  unfolding Client.connect
  connect_client-Calm =
      search
        (
          calm_rules, session-Calm, set_blocking-Calm, call_paired-Calm, set_wrkdir-Calm,
          open_handles-Calm,
        )
        depth 16

  discard-Calm :
      {A : Type 0} (m : Exec (SftpState H) A) → Calm (Paired H) m → Calm (Paired H) (discard m)
  discard-Calm m k = Calm-bind _ _ _ k (λ a. Calm-pure _ _)

  perform-Calm :
      (hooks : Dependable H) (writes rounds : ℕ) (c : CallOf C H)
      → ReadsNoExitCode c
      → Calm (Paired H) (perform C H writes rounds c)
  unfolding perform
  perform-Calm hooks writes rounds connect h = discard-Calm _ (connect_client-Calm)
  perform-Calm hooks writes rounds pwd h = discard-Calm _ (Quiet.pwd-Calm C H)
  perform-Calm hooks writes rounds (change_dir p) h = discard-Calm _ (Quiet.change_dir-Calm C H p)
  perform-Calm hooks writes rounds (list_dir p) h = discard-Calm _ (Quiet.list_dir-Calm C H p)
  perform-Calm hooks writes rounds (stat p) h = discard-Calm _ (Quiet.stat_paired-Calm C H p)
  perform-Calm hooks writes rounds (exists p) h = discard-Calm _ (Quiet.exists_paired-Calm C H p)
  perform-Calm hooks writes rounds (open_read p) h = discard-Calm _ (Quiet.open_read-Calm C H p)
  perform-Calm hooks writes rounds (append p m) h = discard-Calm _ (Quiet.append-Calm C H p m)
  perform-Calm hooks writes rounds (create p m) h = discard-Calm _ (Quiet.create-Calm C H p m)
  perform-Calm hooks writes rounds (append_file p m r) h =
      discard-Calm _ (Transfers.append_file-Calm C H hooks writes rounds p m r)
  perform-Calm hooks writes rounds (create_file p m r) h =
      discard-Calm _ (Transfers.create_file-Calm C H hooks writes rounds p m r)
  perform-Calm hooks writes rounds (open_file p d) h =
      discard-Calm _ (Transfers.open_file-Calm C H hooks writes rounds p d)
  perform-Calm hooks writes rounds disconnect h = Quiet.disconnect-Calm C H
  perform-Calm hooks writes rounds (remove_file p) h = Quiet.remove_file-Calm C H p
  perform-Calm hooks writes rounds (remove_dir p) h = Quiet.remove_dir-Calm C H p
  perform-Calm hooks writes rounds (symlink p target) h = Quiet.symlink-Calm C H p target
  perform-Calm hooks writes rounds (mov src dest) h = Quiet.mov-Calm C H src dest
  perform-Calm hooks writes rounds (create_dir p mode) h = Quiet.create_dir-Calm C H p mode
  perform-Calm hooks writes rounds (setstat p m) h = Quiet.setstat-Calm C H p m
  perform-Calm hooks writes rounds (exec cmd) h = elim h [ ]
  perform-Calm hooks writes rounds (copy src dest) h = elim h [ ]

  -- However the state of a client came about, by any calls on a new client while the world also
  -- changed between them: no SFTP call but `exec` and `copy` panics on it, given that the hooks
  -- `on_written` and `on_read` do not, and that no stream tells more bytes than it was asked for.
  pub perform-Reached :
      (s : SftpState H)
      → Reached s
      → Dependable H
      → (writes rounds : ℕ) (c : CallOf C H) → ReadsNoExitCode c
      → ¬ ((perform C H writes rounds c s).0 ≡ panic)
  perform-Reached s reached hooks writes rounds c h e =
      subst NoPanic e ((perform-Calm hooks writes rounds c h).at s (Reached-IsPaired s reached)).0
