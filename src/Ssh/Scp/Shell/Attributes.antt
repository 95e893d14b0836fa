-- ===== src/Ssh/Scp/Shell/Attributes.antt =====
-- src/ssh/scp.rs: `setstat` against its specification.
use remotefs_rs_ssh.Prelude.{
  All, List, ℕ, ◌≡◌, ◌∙◌, refl, true, Option, none, some, option_map, ◌==◌, inl, inr, Bool-cases,
}
use remotefs_rs_ssh.Text.{Text, codes}
use remotefs_rs_ssh.FilePath.{is_absolute}
use remotefs_rs_ssh.Utils.{fmt_time_utc}
use remotefs_rs_ssh.Remotefs.{Metadata, SystemTime, new, stat_failed}
use remotefs_rs_ssh.Exec.{Exec, pure, ◌>>◌, steps}
use remotefs_rs_ssh.Host.{Host}
use remotefs_rs_ssh.Crates.{Crates}
use remotefs_rs_ssh.Ssh.Scp.Client.{Scp, ScpFs, assert_stat_command}
use remotefs_rs_ssh.Ssh.Scp.Change.{setstat, set_mode, set_owner, set_time}
use remotefs_rs_ssh.Ssh.Scp.Shell.{
  Command, chmod, chown, touch_accessed, touch_modified, line_of, chain, done, setstat_spec, Spec,
  ShellHost, if_given, setstat_commands,
}
use remotefs_rs_ssh.Ssh.Scp.Shell.Refines.{
  Meets, run_command, check_connection-Meets, absolute-Meets, present_path-Meets,
}

-- The time as `touch` takes it.
abbrev pub stamp : Crates → SystemTime → Text
stamp C t = fmt_time_utc C t (codes "%Y%m%d%H%M.%S")

module _ (C : Crates) (H : Host) (shell : ShellHost H) (x : H.Session) (c : ScpFs H)
    (open_session : c.session ≡ some x) where
  command-Meets :
      (k : Command) (n : Exec (Scp H) (Unit {0})) (sp : Spec (shell.machine x))
      → shell.allowed k
      → Meets C H shell x c open_session n sp
      → Meets C H shell x c open_session
          (assert_stat_command C H (line_of k) >> n)
          (chain (shell.machine x) (some k) (new stat_failed) sp)
  unfolding assert_stat_command steps
  command-Meets k n sp ok_k h = record {
    at = λ w live.
        rw (run_command C H shell x c open_session k w ok_k)
          (elim (Bool-cases ((shell.machine x k w).0 == 0)) [
            | inl zero_code ↦
                rw zero_code (h.at (shell.machine x k w).1 (shell.session_law x k w ok_k ∙ live))
            | inr other ↦ rw other
          ]);
  }

  left_out-Meets :
      (n : Exec (Scp H) (Unit {0})) (sp : Spec (shell.machine x))
      → Meets C H shell x c open_session n sp
      → Meets C H shell x c open_session
          (pure tt >> n)
          (chain (shell.machine x) none (new stat_failed) sp)
  unfolding steps
  left_out-Meets n sp h = record { at = λ w live. h.at w live }

  abbrev AllGiven : Option Command → Type 0
  AllGiven none = Unit
  AllGiven (some k) = shell.allowed k

  given :
      (k : Option Command) (rest : List Command)
      → All shell.allowed (if_given k rest)
      → AllGiven k × All shell.allowed rest
  given none rest h = (tt, h)
  given (some k) rest h = (h.0, h.1)

  set_mode-Meets :
      (p : Text) (mode : Option C.UnixPex) (n : Exec (Scp H) (Unit {0}))
      (sp : Spec (shell.machine x))
      → AllGiven (option_map (λ m. chmod (C.pex_bits m) p) mode)
      → Meets C H shell x c open_session n sp
      → Meets C H shell x c open_session (set_mode C H p mode >> n) (
          chain
            (shell.machine x)
            (option_map (λ m. chmod (C.pex_bits m) p) mode)
            (new stat_failed)
            sp)
  set_mode-Meets p none n sp ok_k h = left_out-Meets n sp h
  set_mode-Meets p (some m) n sp ok_k h = command-Meets (chmod (C.pex_bits m) p) n sp ok_k h

  set_owner-Meets :
      (p : Text) (uid gid : Option ℕ) (n : Exec (Scp H) (Unit {0})) (sp : Spec (shell.machine x))
      → AllGiven (option_map (λ u. chown u gid p) uid)
      → Meets C H shell x c open_session n sp
      → Meets C H shell x c open_session
          (set_owner C H p uid gid >> n)
          (chain (shell.machine x) (option_map (λ u. chown u gid p) uid) (new stat_failed) sp)
  set_owner-Meets p none gid n sp ok_k h = left_out-Meets n sp h
  set_owner-Meets p (some u) none n sp ok_k h = command-Meets (chown u none p) n sp ok_k h
  set_owner-Meets p (some u) (some g) n sp ok_k h = command-Meets (chown u (some g) p) n sp ok_k h

  set_accessed-Meets :
      (p : Text) (t : Option SystemTime) (n : Exec (Scp H) (Unit {0})) (sp : Spec (shell.machine x))
      → AllGiven (option_map (λ t. touch_accessed (stamp C t) p) t)
      → Meets C H shell x c open_session n sp
      → Meets C H shell x c open_session (set_time C H (codes "-a") p t >> n) (
          chain
            (shell.machine x)
            (option_map (λ t. touch_accessed (stamp C t) p) t)
            (new stat_failed)
            sp)
  set_accessed-Meets p none n sp ok_k h = left_out-Meets n sp h
  set_accessed-Meets p (some t) n sp ok_k h =
      command-Meets (touch_accessed (stamp C t) p) n sp ok_k h

  set_modified-Meets :
      (p : Text) (t : Option SystemTime)
      → AllGiven (option_map (λ t. touch_modified (stamp C t) p) t)
      → Meets C H shell x c open_session (set_time C H (codes "-m") p t) (
          chain
            (shell.machine x)
            (option_map (λ t. touch_modified (stamp C t) p) t)
            (new stat_failed)
            (done (shell.machine x)))
  unfolding assert_stat_command steps
  set_modified-Meets p none ok_k = record { at = λ w live. refl }
  set_modified-Meets p (some t) ok_k = record {
    at = λ w live.
        let k = touch_modified (stamp C t) p in
        rw (run_command C H shell x c open_session k w ok_k)
          (elim (Bool-cases ((shell.machine x k w).0 == 0)) [
            | inl zero_code ↦ rw zero_code
            | inr other ↦ rw other
          ]);
  }

  -- For an SCP client with a session and an absolute working directory, on a host whose shell runs
  -- the commands given by the metadata, while the session is live: `setstat` sends `chmod`, `chown` and two `touch` for
  -- what the metadata gives, in this order, and stops with `StatFailed` at the first that fails.
  -- The group goes with the user only. The client is as it was.
  pub setstat-setstat_spec :
      (rooted : is_absolute c.wrkdir ≡ true) (path : Text) (m : Metadata C.UnixPex) (w : H.World)
      → All shell.allowed (setstat_commands C.pex_bits (stamp C) c.wrkdir path m)
      → H.authenticated x w ≡ true
      → setstat C H path m (record { client = c; world = w }) ≡ (
        (setstat_spec (shell.machine x) C.pex_bits (stamp C) c.wrkdir path m w).0,
        record {
          client = c;
          world = (setstat_spec (shell.machine x) C.pex_bits (stamp C) c.wrkdir path m w).1;
        },
      )
  unfolding setstat
  setstat-setstat_spec rooted path m w ok_m live =
      let mode = given _ _ ok_m.1 in
      let owner = given _ _ mode.1 in
      let accessed = given _ _ owner.1 in
      let modified = given _ _ accessed.1 in
      (check_connection-Meets C H shell x c open_session _ _ (
          absolute-Meets C H shell x c open_session path _ _ (
            present_path-Meets C H shell x c open_session rooted path _ _ _ ok_m.0 (
              set_mode-Meets _ m.mode _ _ mode.0 (
                set_owner-Meets _ m.uid m.gid _ _ owner.0 (
                  set_accessed-Meets _ m.accessed _ _ accessed.0
                    (set_modified-Meets _ m.modified modified.0))))))).at
        w live
