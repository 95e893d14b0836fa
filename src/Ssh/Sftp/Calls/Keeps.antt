-- ===== src/Ssh/Sftp/Calls/Keeps.antt =====
-- src/ssh/sftp.rs: the calls, and the client.
use remotefs_rs_ssh.Prelude.{
  ℕ, zero, suc, ◌≡◌, refl, Bool, true, false, Option, none, some, List, [], ◌∷◌,
}
use remotefs_rs_ssh.Text.{Text}
use remotefs_rs_ssh.Remotefs.{RemoteError, RemoteErrorType, Metadata, no_such_file_or_directory}
use remotefs_rs_ssh.Exec.{panics, Exec, diverges, steps}
use remotefs_rs_ssh.Exec.Keeps.{Keeps, Keeps-pure, Keeps-bind, keeps_rules}
use remotefs_rs_ssh.Foreign.{on_world, world_steps}
use remotefs_rs_ssh.Host.{Host, FileStat}
use remotefs_rs_ssh.Crates.{Crates}
use remotefs_rs_ssh.Ssh.Sftp.Client.{
  SftpFs, SftpState, check_connection, is_connected, given_sftp, with_sftp,
}
use remotefs_rs_ssh.Ssh.Sftp.Entry
use remotefs_rs_ssh.Ssh.Sftp.Client
use remotefs_rs_ssh.Ssh.Sftp.Ops
use remotefs_rs_ssh.Ssh.Sftp.Files
use remotefs_rs_ssh.Ssh.Sftp.Transfer.{write_all, write_chunk, copy_loop}
use remotefs_rs_ssh.Ssh.Sftp.Calls.{Call, CallOf, connect, disconnect, change_dir, perform}

module _ {S P : Type 0} (part : S → P) (read : ℕ → Exec S (List ℕ)) (write : List ℕ → Exec S ℕ)
    (reads : (n : ℕ) → Keeps part (read n))
    (writes_ok : (bytes : List ℕ) → Keeps part (write bytes)) where
  Keeps-diverges : {A : Type 0} → Keeps part (diverges {A = A})
  unfolding steps
  Keeps-diverges = record { at = λ s. refl }

  Keeps-panics : {A : Type 0} → Keeps part (panics {A = A})
  unfolding steps
  Keeps-panics = record { at = λ s. refl }

  write_all-Keeps : (fuel : ℕ) (bytes : List ℕ) → Keeps part (write_all read write fuel bytes)
  unfolding write_all
  write_all-Keeps fuel [] = search keeps_rules
  write_all-Keeps zero (b ∷ bs) = Keeps-diverges
  write_all-Keeps (suc fuel) (b ∷ bs) = search (keeps_rules, writes_ok, write_all-Keeps fuel)

  write_chunk-Keeps : (fuel : ℕ) (chunk : List ℕ) → Keeps part (write_chunk read write fuel chunk)
  unfolding write_chunk
  write_chunk-Keeps fuel chunk = search (keeps_rules, Keeps-panics, write_all-Keeps)

  copy_loop-Keeps :
      (writes rounds size bytes : ℕ) → Keeps part (copy_loop read write writes rounds size bytes)
  unfolding copy_loop
  copy_loop-Keeps writes zero size bytes = search (keeps_rules, Keeps-diverges)
  copy_loop-Keeps writes (suc rounds) size bytes =
      search (keeps_rules, reads, write_chunk-Keeps, copy_loop-Keeps writes rounds) depth 12

module _ (H : Host) where
  abbrev pub client_of : SftpState H → SftpFs H
  client_of s = s.client

  Keeps-on_world : {A : Type 0} (m : Exec H.World A) → Keeps client_of (on_world m)
  unfolding world_steps
  Keeps-on_world m = record { at = λ s. refl }

  is_connected-Keeps : Keeps client_of (is_connected H)
  unfolding is_connected
  is_connected-Keeps = record { at = λ s. refl }

  check_connection-Keeps : Keeps client_of (check_connection H)
  unfolding check_connection
  check_connection-Keeps = search (keeps_rules, is_connected-Keeps)

  given_sftp-Keeps :
      {A : Type 0} (f : H.Sftp → Exec (SftpState H) A) (o : Option H.Sftp)
      → ((x : H.Sftp) → Keeps client_of (f x))
      → Keeps client_of (given_sftp H f o)
  given_sftp-Keeps f none h = search keeps_rules
  given_sftp-Keeps f (some x) h = h x

  with_sftp-Keeps :
      {A : Type 0} (f : H.Sftp → Exec (SftpState H) A)
      → ((x : H.Sftp) → Keeps client_of (f x))
      → Keeps client_of (with_sftp H f)
  with_sftp-Keeps f h = search (keeps_rules, given_sftp-Keeps)

module _ (C : Crates) (H : Host) where
  link_of-Keeps : (path : Text) (b : Bool) → Keeps (client_of H) (Entry.link_of C H path b)
  link_of-Keeps path false = search keeps_rules
  link_of-Keeps path true = search (keeps_rules, Keeps-on_world) depth 12

  make_fsentry-Keeps :
      (path : Text) (st : FileStat) → Keeps (client_of H) (Entry.make_fsentry C H path st)
  unfolding Entry.make_fsentry
  make_fsentry-Keeps path st = search (keeps_rules, link_of-Keeps)

  make_fsentries-Keeps :
      (files : List (Text × FileStat)) → Keeps (client_of H) (Entry.make_fsentries C H files)
  unfolding Entry.make_fsentries
  make_fsentries-Keeps [] = search keeps_rules
  make_fsentries-Keeps ((path, st) ∷ rest) =
      Keeps-bind _ _ _ (make_fsentry-Keeps path st)
        (λ f. Keeps-bind _ _ _ (make_fsentries-Keeps rest) (λ fs. Keeps-pure _ _))

  pub stat-Keeps : (path : Text) → Keeps (client_of H) (Ops.stat C H path)
  unfolding Ops.stat
  stat-Keeps path =
      search (keeps_rules, with_sftp-Keeps, Keeps-on_world, make_fsentry-Keeps) depth 12

  missing-Keeps :
      (k : RemoteErrorType) (e : RemoteError) → Keeps (client_of H) (Ops.missing C H k e)
  missing-Keeps no_such_file_or_directory e = search keeps_rules
  missing-Keeps _ e = search keeps_rules

  exists-Keeps : (path : Text) → Keeps (client_of H) (Ops.exists C H path)
  unfolding Ops.exists
  exists-Keeps path = search (keeps_rules, stat-Keeps, missing-Keeps)

  exists_or_false-Keeps : (path : Text) → Keeps (client_of H) (Ops.exists_or_false C H path)
  exists_or_false-Keeps path = search (keeps_rules, exists-Keeps)

ruleset call_rules = (
  keeps_rules, Keeps-on_world, is_connected-Keeps, check_connection-Keeps, with_sftp-Keeps,
  make_fsentry-Keeps, make_fsentries-Keeps, stat-Keeps, exists-Keeps, exists_or_false-Keeps,
  copy_loop-Keeps,
)

-- The calls that may change the client.
abbrev pub LeavesClient : {UnixPex R W : Type 0} → Call UnixPex R W → Type 0
LeavesClient connect = ⊥
LeavesClient disconnect = ⊥
LeavesClient (change_dir p) = ⊥
LeavesClient _ = Unit

module _ (C : Crates) (H : Host) where
  append-Keeps : (p : Text) (m : Metadata C.UnixPex) → Keeps (client_of H) (Files.append C H p m)
  unfolding Files.append
  append-Keeps p m = search call_rules depth 12

  create-Keeps : (p : Text) (m : Metadata C.UnixPex) → Keeps (client_of H) (Files.create C H p m)
  unfolding Files.create
  create-Keeps p m = search call_rules depth 12

  open_read-Keeps : (p : Text) → Keeps (client_of H) (Files.open_read C H p)
  unfolding Files.open_read
  open_read-Keeps p = search call_rules depth 12

  perform-Keeps :
      (writes rounds : ℕ) (c : CallOf C H)
      → LeavesClient c
      → Keeps (client_of H) (perform C H writes rounds c)
  unfolding perform Client.pwd Ops.list_dir Ops.exec Ops.setstat Ops.remove_file Ops.remove_dir
      Ops.create_dir Ops.symlink Ops.copy Ops.mov Files.append_file Files.create_file
      Files.open_file
  perform-Keeps writes rounds connect h = elim h [ ]
  perform-Keeps writes rounds disconnect h = elim h [ ]
  perform-Keeps writes rounds (change_dir p) h = elim h [ ]
  perform-Keeps writes rounds (Call.append p m) h = search (keeps_rules, append-Keeps)
  perform-Keeps writes rounds (Call.create p m) h = search (keeps_rules, create-Keeps)
  perform-Keeps writes rounds (Call.open_read p) h = search (keeps_rules, open_read-Keeps)
  perform-Keeps writes rounds (Call.append_file p m r) h =
      search (call_rules, append-Keeps) depth 14
  perform-Keeps writes rounds (Call.create_file p m r) h =
      search (call_rules, create-Keeps) depth 14
  perform-Keeps writes rounds (Call.open_file p w) h = search (call_rules, open_read-Keeps) depth 14
  perform-Keeps writes rounds _ h = search call_rules depth 14

  -- Every SFTP call but `connect`, `disconnect` and `change_dir` leaves the session, the SFTP
  -- channel, the working directory and the options as they are, whatever its outcome.
  pub sftp_client-perform :
      (writes rounds : ℕ) (c : CallOf C H) (s : SftpState H)
      → LeavesClient c
      → (perform C H writes rounds c s).1.client ≡ s.client
  sftp_client-perform writes rounds c s h = (perform-Keeps writes rounds c h).at s
