-- ===== src/Ssh/Scp/Calls/Keeps.antt =====
-- src/ssh/scp.rs: the calls, and the client.
use remotefs_rs_ssh.Prelude.{◌⊎◌, inl, inr, ℕ, ◌≡◌, refl, Option, none, some, List, arith}
use remotefs_rs_ssh.Text.{Text}
use remotefs_rs_ssh.Remotefs.{RemoteError, RemoteErrorType, SystemTime}
use remotefs_rs_ssh.Exec.{Exec, err}
use remotefs_rs_ssh.Exec.Keeps.{Keeps, Keeps-pure, keeps_rules}
use remotefs_rs_ssh.Foreign.{on_world, world_steps}
use remotefs_rs_ssh.Host.{Host}
use remotefs_rs_ssh.Crates.{Crates}
use remotefs_rs_ssh.Ssh.Scp.Client
use remotefs_rs_ssh.Ssh.Scp.Client.{Scp, ScpFs, check_connection, is_connected}
use remotefs_rs_ssh.Ssh.Scp.Listing.{Listed, listed, ignored, panicked}
use remotefs_rs_ssh.Ssh.Scp.Ops
use remotefs_rs_ssh.Ssh.Scp.Change
use remotefs_rs_ssh.Ssh.Scp.Calls.{Call, connect, disconnect, change_dir, perform}

module _ (H : Host) where
  abbrev pub client_of : Scp H → ScpFs H
  client_of s = s.client

  Keeps-on_world : {A : Type 0} (m : Exec H.World A) → Keeps client_of (on_world m)
  unfolding world_steps
  Keeps-on_world m = record { at = λ s. refl }

  is_connected-Keeps : Keeps client_of (is_connected H)
  unfolding is_connected
  is_connected-Keeps = record { at = λ s. refl }

  check_connection-Keeps : Keeps client_of (check_connection H)
  unfolding check_connection
  check_connection-Keeps = search (keeps_rules, is_connected-Keeps)

  run-Keeps : (cmd : Text) → Keeps client_of (Client.run H cmd)
  run-Keeps cmd = search (keeps_rules, Keeps-on_world)

  run_with_rc-Keeps : (cmd : Text) → Keeps client_of (Client.run_with_rc H cmd)
  run_with_rc-Keeps cmd = search (keeps_rules, Keeps-on_world)

module _ (C : Crates) (H : Host) where
  expect_zero-Keeps :
      (cmd : Text) (e : RemoteError) (k : RemoteErrorType)
      → Keeps (client_of H) (Client.expect_zero C H cmd e k)
  expect_zero-Keeps cmd e k = search (keeps_rules, run_with_rc-Keeps)

  test_zero-Keeps : (cmd : Text) → Keeps (client_of H) (Client.test_zero C H cmd)
  test_zero-Keeps cmd = search (keeps_rules, run_with_rc-Keeps)

  is_directory-Keeps : (p : Text) → Keeps (client_of H) (Client.is_directory C H p)
  unfolding Client.is_directory
  is_directory-Keeps p = search (keeps_rules, test_zero-Keeps)

  exists-Keeps : (p : Text) → Keeps (client_of H) (Client.exists C H p)
  unfolding Client.exists
  exists-Keeps p = search (keeps_rules, check_connection-Keeps, test_zero-Keeps)

  assert_stat_command-Keeps :
      (cmd : Text) → Keeps (client_of H) (Client.assert_stat_command C H cmd)
  unfolding Client.assert_stat_command
  assert_stat_command-Keeps cmd = search (keeps_rules, run_with_rc-Keeps)

  exists_or_false-Keeps : (p : Text) → Keeps (client_of H) (Client.exists_or_false C H p)
  exists_or_false-Keeps p = search (keeps_rules, exists-Keeps)

  set_mode-Keeps : (p : Text) (m : Option C.UnixPex) → Keeps (client_of H) (Change.set_mode C H p m)
  set_mode-Keeps p none = Keeps-pure _ _
  set_mode-Keeps p (some m) = assert_stat_command-Keeps _

  set_owner-Keeps : (p : Text) (u g : Option ℕ) → Keeps (client_of H) (Change.set_owner C H p u g)
  set_owner-Keeps p none g = Keeps-pure _ _
  set_owner-Keeps p (some u) g = assert_stat_command-Keeps _

  set_time-Keeps :
      (flag p : Text) (t : Option SystemTime) → Keeps (client_of H) (Change.set_time C H flag p t)
  set_time-Keeps flag p none = Keeps-pure _ _
  set_time-Keeps flag p (some t) = assert_stat_command-Keeps _

ruleset call_rules = (
  keeps_rules, Keeps-on_world, check_connection-Keeps, run-Keeps, run_with_rc-Keeps,
  expect_zero-Keeps, test_zero-Keeps, is_directory-Keeps, exists-Keeps, exists_or_false-Keeps,
  assert_stat_command-Keeps, set_mode-Keeps, set_owner-Keeps, set_time-Keeps,
)

-- The calls that may change the client.
abbrev pub LeavesClient : {UnixPex : Type 0} → Call UnixPex → Type 0
LeavesClient connect = ⊥
LeavesClient disconnect = ⊥
LeavesClient (change_dir p) = ⊥
LeavesClient _ = Unit

module _ (C : Crates) (H : Host) where
  entries_of-Keeps : (l : Listed (List _)) → Keeps (client_of H) (Ops.entries_of C H l)
  entries_of-Keeps (listed es) = search keeps_rules
  entries_of-Keeps ignored = search keeps_rules
  entries_of-Keeps panicked = search keeps_rules

  file_of-Keeps : (l : Listed _) → Keeps (client_of H) (Ops.file_of C H l)
  file_of-Keeps (listed f) = search keeps_rules
  file_of-Keeps ignored = search keeps_rules
  file_of-Keeps panicked = search keeps_rules

  stat_line-Keeps : (o : Option Text) (line : Text) → Keeps (client_of H) (Ops.stat_line C H o line)
  stat_line-Keeps none line = search keeps_rules
  stat_line-Keeps (some p) line = search (keeps_rules, file_of-Keeps)

  perform-Keeps : (c : Call C.UnixPex) → LeavesClient c → Keeps (client_of H) (perform C H c)
  unfolding perform Client.pwd Ops.list_dir Ops.stat Ops.exec Ops.open_read Change.setstat
      Change.remove_file Change.remove_dir Change.remove_dir_all Change.create_dir Change.symlink
      Change.copy Change.mov Change.append Change.create
  perform-Keeps connect h = elim h [ ]
  perform-Keeps disconnect h = elim h [ ]
  perform-Keeps (change_dir p) h = elim h [ ]
  perform-Keeps Call.pwd h = search call_rules depth 12
  perform-Keeps (Call.list_dir p) h = search (call_rules, entries_of-Keeps) depth 12
  perform-Keeps (Call.stat p) h = search (call_rules, stat_line-Keeps) depth 12
  perform-Keeps (Call.remove_file p) h = search call_rules depth 12
  perform-Keeps (Call.setstat p m) h = search call_rules depth 14
  perform-Keeps _ h = search call_rules depth 14

  -- Every SCP call but `connect`, `disconnect` and `change_dir` leaves the session, the working
  -- directory and the options as they are, whatever its outcome.
  pub client-perform :
      (c : Call C.UnixPex) (s : Scp H) → LeavesClient c → (perform C H c s).1.client ≡ s.client
  client-perform c s h = (perform-Keeps c h).at s

  client-connect_failed :
      (s : Scp H) (e : RemoteError)
      → (perform C H connect s).0 ≡ err e
      → (perform C H connect s).1.client ≡ s.client
  unfolding perform Client.connect world_steps
  client-connect_failed s e h = ground arith

  client-disconnect_failed :
      (s : Scp H) (e : RemoteError)
      → (perform C H disconnect s).0 ≡ err e
      → (perform C H disconnect s).1.client ≡ s.client
  unfolding perform Client.disconnect world_steps
  client-disconnect_failed s e h = ground arith

  client-change_dir_failed :
      (p : Text) (s : Scp H) (e : RemoteError)
      → (perform C H (change_dir p) s).0 ≡ err e
      → (perform C H (change_dir p) s).1.client ≡ s.client
  unfolding perform Ops.change_dir check_connection is_connected world_steps
  client-change_dir_failed p s e h = ground arith

  -- An SCP call that returns an error has left the session, the working directory and the options
  -- as they were.
  pub client-perform_failed :
      (c : Call C.UnixPex) (s : Scp H) (e : RemoteError)
      → (perform C H c s).0 ≡ err e
      → (perform C H c s).1.client ≡ s.client
  client-perform_failed connect s e h = client-connect_failed s e h
  client-perform_failed disconnect s e h = client-disconnect_failed s e h
  client-perform_failed (change_dir p) s e h = client-change_dir_failed p s e h
  client-perform_failed c s e h = client-perform c s tt

  -- An SCP call leaves the session, the working directory and the options as they are if it
  -- returns an error, and whatever its outcome if it is neither `connect` nor `disconnect` nor
  -- `change_dir`.
  pub client-perform_kept :
      (c : Call C.UnixPex) (s : Scp H)
      → LeavesClient c ⊎ ((e : RemoteError) × ((perform C H c s).0 ≡ err e))
      → (perform C H c s).1.client ≡ s.client
  client-perform_kept c s (inl leaves) = client-perform c s leaves
  client-perform_kept c s (inr (e, failed)) = client-perform_failed c s e failed
