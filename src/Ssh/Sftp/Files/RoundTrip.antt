-- ===== src/Ssh/Sftp/Files/RoundTrip.antt =====
-- src/ssh/sftp.rs, `create_file` and then `open_file` of the same path: an upload and its download.
use remotefs_rs_ssh.Prelude.{
  ℕ, ◌≤◌, ◌≡◌, refl, sym, ap, ◌∙◌, true, List, [], ◌∷◌, ◌++◌, length, append-nil, length-append,
  arith,
}
use remotefs_rs_ssh.Text.{Text}
use remotefs_rs_ssh.Remotefs.{File, Metadata}
use remotefs_rs_ssh.Exec.{ok}
use remotefs_rs_ssh.Host.{Host}
use remotefs_rs_ssh.Crates.{Crates}
use remotefs_rs_ssh.Ssh.Stream.Reading.{SftpReadStream}
use remotefs_rs_ssh.Ssh.Stream.Writing.{SftpWriteStream}
use remotefs_rs_ssh.Ssh.Sftp.Client.{SftpState, session_live}
use remotefs_rs_ssh.Ssh.Sftp.Ops.{stat}
use remotefs_rs_ssh.Ssh.Sftp.Files.{create, create_file, open_read, open_file}
use remotefs_rs_ssh.Ssh.Sftp.Files.Sending.{read_local, write_remote, create_file-Sent}
use remotefs_rs_ssh.Ssh.Sftp.Files.Receiving.{read_remote, write_local, open_file-Received}
use remotefs_rs_ssh.Ssh.Sftp.Transfer.{buffer_size}
use remotefs_rs_ssh.Ssh.Sftp.Transfer.Streams.{IsStream}

no_rest : (rest : List ℕ) → length rest ≡ 0 → rest ≡ []
no_rest [] h = refl
no_rest (b ∷ rest) h = absurd (omega arith)

-- A front part that is as long as the whole is the whole.
whole :
    (bytes front rest : List ℕ)
    → bytes ≡ front ++ rest
    → length bytes ≤ length front
    → front ≡ bytes
whole bytes front rest split long =
    let none_left = no_rest rest (omega (arith, ap length split, length-append front rest)) in
    sym (split ∙ rw (none_left, append-nil))

module _ (C : Crates) (H : Host) (reader : H.LocalReader) (dest : H.LocalWriter)
    (up : SftpWriteStream H) (down : SftpReadStream H)
    (unsent content unread got : H.World → List ℕ) where
  -- An upload of all bytes of the reader, and a download of the same bytes.
  pub record Returned (writes rounds fetches : ℕ) (path : Text) (metadata : Metadata C.UnixPex)
      (bytes : List ℕ) (s sent reopened : SftpState H) : Type 0 where
    pub uploaded : create_file C H writes rounds path metadata reader s ≡ (ok (length bytes), sent)
    pub stored : content sent.world ≡ bytes
    pub after : H.World
    pub downloaded :
        open_file C H writes fetches path dest sent
        ≡ (ok (length bytes), record reopened { world = after })
    pub same : got after ≡ got reopened.world ++ bytes

  -- On a session that is live before and after the upload: where `create` opens an empty remote
  -- file and the announced size is that of all bytes of the reader, `create_file` returns their
  -- number and stores them; where `stat` then tells their number and `open` reads from their
  -- start, `open_file` returns their number and adds just these bytes, in order, to the
  -- destination. The streams of both transfers keep to the contracts of Read and Write, closing
  -- them succeeds, and the fuel covers the sizes in rounds and a buffer in writes.
  pub upload-download :
      (sending : IsStream
        (read_local C H reader up unsent content)
        (write_remote C H reader up unsent content)
        unsent
        content)
      → ((w : H.World) → H.on_written up.file w ≡ (ok tt, w))
      → (receiving : IsStream
          (read_remote C H down dest unread got)
          (write_local C H down dest unread got)
          unread
          got)
      → ((w : H.World) → H.on_read down.file w ≡ (ok tt, w))
      → (writes rounds fetches : ℕ) (path : Text) (metadata : Metadata C.UnixPex)
        (f : File C.UnixPex) (s opened sent found reopened : SftpState H)
      → buffer_size ≤ writes
      → session_live H s.client.session s.world ≡ true
      → create C H path metadata s ≡ (ok up, opened)
      → content opened.world ≡ []
      → metadata.size ≡ length (unsent opened.world)
      → metadata.size ≤ rounds
      → (create_file C H writes rounds path metadata reader s).1 ≡ sent
      → session_live H sent.client.session sent.world ≡ true
      → stat C H path sent ≡ (ok f, found)
      → f.metadata.size ≡ length (content sent.world)
      → f.metadata.size ≤ fetches
      → open_read C H path found ≡ (ok down, reopened)
      → unread reopened.world ≡ content sent.world
      → Returned writes rounds fetches path metadata (unsent opened.world) s sent reopened
  upload-download sending closes receiving read_closes writes rounds fetches path metadata f s
        opened sent found reopened room live open_ok truncated all_bytes fuel left sent_live stat_ok
        told fetch_fuel reopen_ok from_start =
      let u =
        create_file-Sent C H reader up unsent content sending closes writes rounds path metadata s
          opened room live open_ok fuel (omega arith) in
      let d =
        open_file-Received C H down dest unread got receiving read_closes writes fetches path f sent
          found reopened room sent_live stat_ok reopen_ok fetch_fuel
          (rw from_start (omega arith)) in
      let all_sent =
        whole (unsent opened.world) u.moved (unsent u.after) u.taken (omega (arith, u.reaches)) in
      let reached : sent ≡ record opened { world = u.after } = sym left ∙ ap (λ r. r.1) u.returns in
      let stored : content sent.world ≡ unsent opened.world =
        ap (λ t. content t.world) reached ∙ u.put ∙ rw truncated all_sent in
      let all_read =
        whole (unread reopened.world) d.moved (unread d.after) d.taken
          (rw from_start (omega (arith, d.reaches))) in
      let same : d.moved ≡ unsent opened.world = all_read ∙ from_start ∙ stored in
      record {
        uploaded = u.returns ∙ rw (all_sent, reached);
        stored = stored;
        after = d.after;
        downloaded = d.returns ∙ rw same;
        same = d.put ∙ rw same;
      }
