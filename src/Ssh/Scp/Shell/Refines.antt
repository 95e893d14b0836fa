-- ===== src/Ssh/Scp/Shell/Refines.antt =====
-- src/ssh/scp.rs: the operations that change the remote file system against their specification.
use remotefs_rs_ssh.Prelude.{
  All, ◌≡◌, ◌∙◌, refl, true, false, not, some, [], ◌==◌, inl, Bool-cases, inr,
}
use remotefs_rs_ssh.Text.{Text}
use remotefs_rs_ssh.Utils.{absolutize}
use remotefs_rs_ssh.Utils.Paths.{absolutize-absolutize}
use remotefs_rs_ssh.FilePath.{is_absolute}
use remotefs_rs_ssh.Remotefs.{RemoteError, protocol_error}
use remotefs_rs_ssh.Exec.{Exec, ok, steps, guard, ◌>>=◌, ◌>>◌}
use remotefs_rs_ssh.Foreign.{world_steps}
use remotefs_rs_ssh.Host.{Host}
use remotefs_rs_ssh.Crates.{Crates}
use remotefs_rs_ssh.Ssh.Commons.Shell.{perform_shell_cmd, perform_shell_cmd_with_rc}
use remotefs_rs_ssh.Ssh.Commons.Shell.ExitCode.{read_rc-clean}
use remotefs_rs_ssh.Ssh.Scp.Client
use remotefs_rs_ssh.Ssh.Scp.Client.{
  Scp, ScpFs, absolute, check_connection, is_connected, exists_or_false, expect_zero, run_with_rc,
}
use remotefs_rs_ssh.Ssh.Scp.Change
use remotefs_rs_ssh.Ssh.Scp.Shell.{
  Command, test_exists, line_of, Request, remove_file, remove_dir, remove_dir_all, create_dir,
  symlink, copy, mov, spec, Spec, finish, only_if, ShellHost, commands_of,
}

module _ (H : Host) (shell : ShellHost H) where
  -- The command is sent, and its exit code is read back.
  command-rc :
      (x : H.Session) (c : Command) (w : H.World)
      → shell.allowed c
      → perform_shell_cmd_with_rc H x (line_of c) w
        ≡ (ok ((shell.machine x c w).0, []), (shell.machine x c w).1)
  unfolding perform_shell_cmd_with_rc perform_shell_cmd world_steps
  command-rc x c w ok_c = rw (
    shell.open_law x w,
    shell.exec_law x c w ok_c,
    shell.print_law x c w ok_c,
    shell.close_law x c w ok_c,
    read_rc-clean [] (shell.machine x c w).0 (inl refl) (shell.exit_code x c w ok_c),
  )

module _ (C : Crates) (H : Host) where
  -- The request as the operation of the client.
  abbrev pub request : Request C.UnixPex → Exec (Scp H) (Unit {0})
  request (remove_file p) = Change.remove_file C H p
  request (remove_dir p) = Change.remove_dir C H p
  request (remove_dir_all p) = Change.remove_dir_all C H p
  request (create_dir p m) = Change.create_dir C H p m
  request (symlink p target) = Change.symlink C H p target
  request (copy src dest) = Change.copy C H src dest
  request (mov src dest) = Change.mov C H src dest

module _ (C : Crates) (H : Host) (shell : ShellHost H) where
  module _ (x : H.Session) (c : ScpFs H) (open_session : c.session ≡ some x) where
    -- The client in a world.
    abbrev pub in_world : H.World → Scp H
    in_world w = record { client = c; world = w }

    -- The action runs as its specification, from any world in which the session is live.
    pub record Meets (m : Exec (Scp H) (Unit {0})) (sp : Spec (shell.machine x)) : Type 0 where
      pub at :
          (w : H.World)
          → H.authenticated x w ≡ true
          → m (in_world w) ≡ ((sp w).0, in_world (sp w).1)

    pub check_live :
        (w : H.World)
        → H.authenticated x w ≡ true
        → check_connection H (in_world w) ≡ (ok tt, in_world w)
    unfolding check_connection is_connected steps
    check_live w live = rw (open_session, live)

    pub run_command :
        (k : Command) (w : H.World)
        → shell.allowed k
        → run_with_rc H (line_of k) (in_world w)
          ≡ (ok ((shell.machine x k w).0, []), in_world (shell.machine x k w).1)
    unfolding world_steps
    run_command k w ok_k = rw (open_session, command-rc H shell x k w ok_k)

    exists_command :
        (p : Text) (w : H.World)
        → shell.allowed (test_exists (absolutize c.wrkdir p))
        → H.authenticated x w ≡ true
        → exists_or_false C H p (in_world w) ≡ (
          ok ((shell.machine x (test_exists (absolutize c.wrkdir p)) w).0 == 0),
          in_world (shell.machine x (test_exists (absolutize c.wrkdir p)) w).1,
        )
    unfolding Client.exists steps
    exists_command p w ok_p live =
        rw (check_live w live, run_command (test_exists (absolutize c.wrkdir p)) w ok_p)

    pub check_connection-Meets :
        (m : Exec (Scp H) (Unit {0})) (sp : Spec (shell.machine x))
        → Meets m sp
        → Meets (check_connection H >> m) sp
    unfolding steps
    check_connection-Meets m sp h = record { at = λ w live. rw (check_live w live) (h.at w live) }

    pub absolute-Meets :
        (p : Text) (k : Text → Exec (Scp H) (Unit {0})) (sp : Spec (shell.machine x))
        → Meets (k (absolutize c.wrkdir p)) sp
        → Meets (absolute H p >>= k) sp
    unfolding steps
    absolute-Meets p k sp h = record { at = λ w live. h.at w live }

    finish-Meets :
        (k : Command) (e : RemoteError)
        → shell.allowed k
        → Meets (expect_zero C H (line_of k) e protocol_error) (finish (shell.machine x) k e)
    unfolding steps
    finish-Meets k e ok_k = record {
      at = λ w live. rw (run_command k w ok_k) (elim (Bool-cases ((shell.machine x k w).0 == 0)) [
        | inl zero_code ↦ rw zero_code
        | inr other ↦ rw other
      ]);
    }

    present-Meets :
        (p : Text) (e : RemoteError) (m : Exec (Scp H) (Unit {0})) (sp : Spec (shell.machine x))
        → shell.allowed (test_exists (absolutize c.wrkdir p))
        → Meets m sp
        → Meets
            (exists_or_false C H p >>= λ found. guard found e >> m)
            (only_if (shell.machine x) true (absolutize c.wrkdir p) e sp)
    unfolding steps
    present-Meets p e m sp ok_p h = record {
      at = λ w live.
          let t = test_exists (absolutize c.wrkdir p) in
          rw (exists_command p w ok_p live) (elim (Bool-cases ((shell.machine x t w).0 == 0)) [
            | inl found ↦
                rw found (h.at (shell.machine x t w).1 (shell.session_law x t w ok_p ∙ live))
            | inr missing ↦ rw missing
          ]);
    }

    absent-Meets :
        (p : Text) (e : RemoteError) (m : Exec (Scp H) (Unit {0})) (sp : Spec (shell.machine x))
        → shell.allowed (test_exists (absolutize c.wrkdir p))
        → Meets m sp
        → Meets
            (exists_or_false C H p >>= λ found. guard (not found) e >> m)
            (only_if (shell.machine x) false (absolutize c.wrkdir p) e sp)
    unfolding steps
    absent-Meets p e m sp ok_p h = record {
      at = λ w live.
          let t = test_exists (absolutize c.wrkdir p) in
          rw (exists_command p w ok_p live) (elim (Bool-cases ((shell.machine x t w).0 == 0)) [
            | inl found ↦ rw found
            | inr missing ↦
                rw missing (h.at (shell.machine x t w).1 (shell.session_law x t w ok_p ∙ live))
          ]);
    }

    module _ (rooted : is_absolute c.wrkdir ≡ true) where
      pub present_path-Meets :
          (p : Text) (e : RemoteError) (m : Exec (Scp H) (Unit {0})) (sp : Spec (shell.machine x))
          → shell.allowed (test_exists (absolutize c.wrkdir p))
          → Meets m sp
          → Meets
              (exists_or_false C H (absolutize c.wrkdir p) >>= λ found. guard found e >> m)
              (only_if (shell.machine x) true (absolutize c.wrkdir p) e sp)
      present_path-Meets p e m sp ok_p h =
          rw (absolutize-absolutize c.wrkdir c.wrkdir p (inl rooted)) at (
            present-Meets (absolutize c.wrkdir p) e m sp
              (rw (absolutize-absolutize c.wrkdir c.wrkdir p (inl rooted)) ok_p) h)

      absent_path-Meets :
          (p : Text) (e : RemoteError) (m : Exec (Scp H) (Unit {0})) (sp : Spec (shell.machine x))
          → shell.allowed (test_exists (absolutize c.wrkdir p))
          → Meets m sp
          → Meets
              (exists_or_false C H (absolutize c.wrkdir p) >>= λ found. guard (not found) e >> m)
              (only_if (shell.machine x) false (absolutize c.wrkdir p) e sp)
      absent_path-Meets p e m sp ok_p h =
          rw (absolutize-absolutize c.wrkdir c.wrkdir p (inl rooted)) at (
            absent-Meets (absolutize c.wrkdir p) e m sp
              (rw (absolutize-absolutize c.wrkdir c.wrkdir p (inl rooted)) ok_p) h)

      request-Meets :
          (r : Request C.UnixPex)
          → All shell.allowed (commands_of C.pex_bits c.wrkdir r)
          → Meets (request C H r) (spec (shell.machine x) C.pex_bits c.wrkdir r)
      unfolding Change.remove_file Change.remove_dir Change.remove_dir_all Change.create_dir
          Change.symlink Change.copy Change.mov
      request-Meets (remove_file p) h =
          check_connection-Meets _ _
            (absolute-Meets p _ _ (present_path-Meets p _ _ _ h.0 (finish-Meets _ _ h.1.0)))
      request-Meets (remove_dir p) h =
          check_connection-Meets _ _
            (absolute-Meets p _ _ (present_path-Meets p _ _ _ h.0 (finish-Meets _ _ h.1.0)))
      request-Meets (remove_dir_all p) h =
          check_connection-Meets _ _
            (absolute-Meets p _ _ (present_path-Meets p _ _ _ h.0 (finish-Meets _ _ h.1.0)))
      request-Meets (create_dir p m) h =
          check_connection-Meets _ _
            (absolute-Meets p _ _ (absent_path-Meets p _ _ _ h.0 (finish-Meets _ _ h.1.0)))
      request-Meets (symlink p target) h = check_connection-Meets _ _ (
          absolute-Meets p _ _ (
            present-Meets target _ _ _ h.0
              (absent_path-Meets p _ _ _ h.1.0 (finish-Meets _ _ h.1.1.0))))
      request-Meets (copy src dest) h = check_connection-Meets _ _ (
          absolute-Meets src _ _
            (present_path-Meets src _ _ _ h.0 (absolute-Meets dest _ _ (finish-Meets _ _ h.1.0))))
      request-Meets (mov src dest) h = check_connection-Meets _ _ (
          absolute-Meets src _ _
            (present_path-Meets src _ _ _ h.0 (absolute-Meets dest _ _ (finish-Meets _ _ h.1.0))))

      -- For an SCP client with a session and an absolute working directory, on a host whose shell
      -- runs the commands of the request, while the session is live: each request to remove, create, link, copy
      -- or move sends the commands of its specification. The outcome is the one that the exit
      -- codes determine, the world is what the commands leave, and the client is as it was.
      pub request-spec :
          (r : Request C.UnixPex) (w : H.World)
          → All shell.allowed (commands_of C.pex_bits c.wrkdir r)
          → H.authenticated x w ≡ true
          → request C H r (record { client = c; world = w }) ≡ (
            (spec (shell.machine x) C.pex_bits c.wrkdir r w).0,
            record { client = c; world = (spec (shell.machine x) C.pex_bits c.wrkdir r w).1 },
          )
      request-spec r w ok_r live = (request-Meets r ok_r).at w live
