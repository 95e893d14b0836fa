-- ===== src/Ssh/Sftp/Calls/Handles.antt =====
-- src/ssh/sftp.rs: the session and the SFTP channel of a client, and its failed calls.
use remotefs_rs_ssh.Prelude.{ℕ, ◌≡◌, refl, ◌∙◌, ap, is_some, arith, ◌⊎◌, inl, inr}
use remotefs_rs_ssh.Text.{Text}
use remotefs_rs_ssh.Remotefs.{RemoteError}
use remotefs_rs_ssh.Exec.{discard, Exec, err, steps}
use remotefs_rs_ssh.Foreign.{world_steps}
use remotefs_rs_ssh.Host.{Host}
use remotefs_rs_ssh.Crates.{Crates}
use remotefs_rs_ssh.Ssh.Sftp.Client
use remotefs_rs_ssh.Ssh.Sftp.Client.{SftpFs, SftpState, check_connection, is_connected}
use remotefs_rs_ssh.Ssh.Sftp.Ops
use remotefs_rs_ssh.Ssh.Sftp.Calls.{CallOf, connect, disconnect, change_dir, perform}
use remotefs_rs_ssh.Ssh.Sftp.Calls.Keeps.{LeavesClient, sftp_client-perform, stat-Keeps}
use remotefs_rs_ssh.Utils.{absolutize}

-- A client has a session and an SFTP channel, or neither.
abbrev pub IsPaired : {H : Host} → SftpFs H → Type 0
IsPaired c = is_some c.session ≡ is_some c.sftp

-- A call whose result is dropped fails as the call itself, and leaves the same state.
discard_failed :
    {S A : Type 0} (m : Exec S A) (s : S) (e : RemoteError)
    → (discard m s).0 ≡ err e
    → ((m s).0 ≡ err e) × ((discard m s).1 ≡ (m s).1)
unfolding steps
discard_failed m s e h = (ground arith, ground arith)

module _ (C : Crates) (H : Host) where
  new_client-IsPaired : (o : _) → IsPaired (Client.new_client H o)
  new_client-IsPaired o = refl

  connect_failed :
      (s : SftpState H) (e : RemoteError)
      → (Client.connect H s).0 ≡ err e
      → (Client.connect H s).1.client ≡ s.client
  unfolding Client.connect world_steps
  connect_failed s e h = ground arith

  disconnect_failed :
      (s : SftpState H) (e : RemoteError)
      → (Client.disconnect H s).0 ≡ err e
      → (Client.disconnect H s).1.client ≡ s.client
  unfolding Client.disconnect world_steps
  disconnect_failed s e h = ground arith

  connect-IsPaired :
      (s : SftpState H) → IsPaired s.client → IsPaired ((Client.connect H s).1.client)
  unfolding Client.connect world_steps
  connect-IsPaired s h = ground arith

  disconnect-IsPaired :
      (s : SftpState H) → IsPaired s.client → IsPaired ((Client.disconnect H s).1.client)
  unfolding Client.disconnect world_steps
  disconnect-IsPaired s h = ground arith

  change_dir_failed :
      (p : Text) (s : SftpState H) (e : RemoteError)
      → (Ops.change_dir C H p s).0 ≡ err e
      → (Ops.change_dir C H p s).1.client ≡ s.client
  unfolding Ops.change_dir check_connection is_connected world_steps
  change_dir_failed p s e h = ground (arith, (stat-Keeps C H (absolutize s.client.wrkdir p)).at s)

  change_dir-IsPaired :
      (p : Text) (s : SftpState H)
      → IsPaired s.client
      → IsPaired ((Ops.change_dir C H p s).1.client)
  unfolding Ops.change_dir check_connection is_connected world_steps
  change_dir-IsPaired p s h = ground (arith, (stat-Keeps C H (absolutize s.client.wrkdir p)).at s)

  -- The SFTP calls keep it that a client has both a session and an SFTP channel, or neither.
  pub perform-IsPaired :
      (writes rounds : ℕ) (c : CallOf C H) (s : SftpState H)
      → IsPaired s.client
      → IsPaired ((perform C H writes rounds c s).1.client)
  unfolding perform steps
  perform-IsPaired writes rounds connect s h = ground (arith, connect-IsPaired s h)
  perform-IsPaired writes rounds disconnect s h = disconnect-IsPaired s h
  perform-IsPaired writes rounds (change_dir p) s h = ground (arith, change_dir-IsPaired p s h)
  perform-IsPaired writes rounds c s h = rw (sftp_client-perform C H writes rounds c s tt) h

  -- An SFTP call that returns an error has left the session, the SFTP channel, the working
  -- directory and the options as they were.
  pub sftp_client-perform_failed :
      (writes rounds : ℕ) (c : CallOf C H) (s : SftpState H) (e : RemoteError)
      → (perform C H writes rounds c s).0 ≡ err e
      → (perform C H writes rounds c s).1.client ≡ s.client
  unfolding perform
  sftp_client-perform_failed writes rounds connect s e h =
      let f = discard_failed (Client.connect H) s e h in
      ap (λ t. t.client) f.1 ∙ connect_failed s e f.0
  sftp_client-perform_failed writes rounds disconnect s e h = disconnect_failed s e h
  sftp_client-perform_failed writes rounds (change_dir p) s e h =
      let f = discard_failed (Ops.change_dir C H p) s e h in
      ap (λ t. t.client) f.1 ∙ change_dir_failed p s e f.0
  sftp_client-perform_failed writes rounds c s e h = sftp_client-perform C H writes rounds c s tt

  -- An SFTP call leaves the session, the SFTP channel, the working directory and the options as
  -- they are if it returns an error, and whatever its outcome if it is neither `connect` nor
  -- `disconnect` nor `change_dir`.
  pub sftp_client-perform_kept :
      (writes rounds : ℕ) (c : CallOf C H) (s : SftpState H)
      → LeavesClient c ⊎ ((e : RemoteError) × ((perform C H writes rounds c s).0 ≡ err e))
      → (perform C H writes rounds c s).1.client ≡ s.client
  sftp_client-perform_kept writes rounds c s (inl leaves) =
      sftp_client-perform C H writes rounds c s leaves
  sftp_client-perform_kept writes rounds c s (inr (e, failed)) =
      sftp_client-perform_failed writes rounds c s e failed
