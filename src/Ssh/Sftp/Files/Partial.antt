-- ===== src/Ssh/Sftp/Files/Partial.antt =====
-- src/ssh/sftp.rs, the transfers over streams that may fail at any call.
use remotefs_rs_ssh.Prelude.{ℕ, ◌≡◌, refl, subst, true, List, ◌++◌, length}
use native.Mathlib.Nat.{zero-add}
use remotefs_rs_ssh.Text.{Text}
use remotefs_rs_ssh.Remotefs.{File, Metadata}
use remotefs_rs_ssh.Exec.{
  Exec, Outcome, ok, err, panic, diverged, branch, raise, steps, ◌>>=◌, ◌>>◌,
}
use remotefs_rs_ssh.Foreign.{on_world}
use remotefs_rs_ssh.Host.{Host}
use remotefs_rs_ssh.Crates.{Crates}
use remotefs_rs_ssh.Ssh.Stream.Reading.{SftpReadStream}
use remotefs_rs_ssh.Ssh.Stream.Writing.{SftpWriteStream}
use remotefs_rs_ssh.Ssh.Sftp.Client.{SftpState, session_live}
use remotefs_rs_ssh.Ssh.Sftp.Ops.{stat}
use remotefs_rs_ssh.Ssh.Sftp.Files.{create, create_file, append, append_file, open_read, open_file}
use remotefs_rs_ssh.Ssh.Sftp.Files.Sending.{
  read_local, write_remote, create_file-send, append_file-send,
}
use remotefs_rs_ssh.Ssh.Sftp.Files.Receiving.{read_remote, write_local, open_file-receive}
use remotefs_rs_ssh.Ssh.Sftp.Transfer.{copy_loop}
use remotefs_rs_ssh.Ssh.Sftp.Transfer.World.{copy_loop-on_world}
use remotefs_rs_ssh.Ssh.Sftp.Transfer.Failing.{MayFail, Ends, Prefix, copy_loop-Prefix}

module _ {H : Host} (remaining written : H.World → List ℕ) where
  -- What a transfer leaves, however it ends: what was written is a front part of what was to be
  -- read, in order, and nothing of the client has changed.
  pub record Partial (size : ℕ) (result : Outcome ℕ × SftpState H) (opened : SftpState H)
      : Type 0 where
    pub moved : List ℕ
    pub rest : List ℕ
    pub front : remaining opened.world ≡ moved ++ rest
    pub put : written result.1.world ≡ written opened.world ++ moved
    pub ends : Ends size result.0 (length moved)
    pub client_kept : result.1.client ≡ opened.client

-- A closing that succeeds and changes nothing leaves the result of the loop.
closed_result :
    {H : Host} (close : Exec H.World (Unit {0}))
    → ((w : H.World) → close w ≡ (ok tt, w))
    → (r : Outcome ℕ) (t : SftpState H)
    → branch (λ n. on_world close >> λ u. (ok n, u)) raise r t ≡ (r, t)
unfolding steps on_world
closed_result close closes (ok n) t = rw (closes t.world)
closed_result close closes (err e) t = refl
closed_result close closes panic t = refl
closed_result close closes diverged t = refl

module _ {H : Host} (remaining written : H.World → List ℕ) (read : ℕ → Exec H.World (List ℕ))
    (write : List ℕ → Exec H.World ℕ) where
  Prefix-Partial :
      (size : ℕ) (r : Outcome ℕ × H.World) (opened : SftpState H)
      → Prefix read write remaining written size 0 r opened.world
      → Partial remaining written size (r.0, record opened { world = r.1 }) opened
  Prefix-Partial size r opened p = record {
    moved = p.moved;
    rest = p.rest;
    front = p.front;
    put = p.put;
    ends = subst (Ends size r.0) (zero-add (length p.moved)) p.ends;
    client_kept = refl;
  }

  -- The loop and the closing behind it.
  loop-Partial :
      (close : Exec H.World (Unit {0}))
      → MayFail read write remaining written
      → ((w : H.World) → close w ≡ (ok tt, w))
      → (writes rounds size : ℕ) (opened : SftpState H)
      → Partial remaining written size
          ((copy_loop (λ n. on_world (read n)) (λ b. on_world (write b)) writes rounds size 0
              >>= λ n. on_world close >> λ t. (ok n, t))
            opened)
          opened
  unfolding steps on_world
  loop-Partial close h closes writes rounds size opened =
      let r = copy_loop read write writes rounds size 0 opened.world in
      rw
        (
          copy_loop-on_world read write writes rounds size 0 opened,
          closed_result close closes r.0 (record opened { world = r.1 }),
        )
        (Prefix-Partial size r opened
          (copy_loop-Prefix read write remaining written h writes rounds size 0 opened.world))

module _ (C : Crates) (H : Host) (remaining written : H.World → List ℕ) where
  module _ (reader : H.LocalReader) (stream : SftpWriteStream H)
      (h : MayFail
        (read_local C H reader stream remaining written)
        (write_remote C H reader stream remaining written)
        remaining
        written)
      (closes : (w : H.World) → H.on_written stream.file w ≡ (ok tt, w)) (writes rounds : ℕ)
      (path : Text) (metadata : Metadata C.UnixPex) (s opened : SftpState H)
      (live : session_live H s.client.session s.world ≡ true) where
    -- On a live session, once `create` has opened the remote file, whatever the fuel and however
    -- the upload ends: what was written is a front part of what the reader held, complete and in
    -- order, and the client is as it was behind the opening. `create_file` returns the number of
    -- bytes that were written, at least the announced size, or the `IoError` of a stream, or has
    -- not ended; it does not panic. The streams may move fewer bytes than asked for, never more,
    -- or fail, at any call; closing the file succeeds.
    pub create_file-Partial :
        create C H path metadata s ≡ (ok stream, opened)
        → Partial remaining written metadata.size
            (create_file C H writes rounds path metadata reader s)
            opened
    create_file-Partial open_ok =
        rw
          (create_file-send C H reader stream remaining written writes rounds path metadata s opened
            live open_ok)
          (loop-Partial remaining written (read_local C H reader stream remaining written)
            (write_remote C H reader stream remaining written) (H.on_written stream.file) h closes
            writes rounds metadata.size opened)

    -- c
    pub append_file-Partial :
        append C H path metadata s ≡ (ok stream, opened)
        → Partial remaining written metadata.size
            (append_file C H writes rounds path metadata reader s)
            opened
    append_file-Partial open_ok =
        rw
          (append_file-send C H reader stream remaining written writes rounds path metadata s opened
            live open_ok)
          (loop-Partial remaining written (read_local C H reader stream remaining written)
            (write_remote C H reader stream remaining written) (H.on_written stream.file) h closes
            writes rounds metadata.size opened)

  -- On a live session, once the remote file is found and opened, whatever the fuel and however the
  -- download ends: what was written to the destination is a front part of the remote file,
  -- complete and in order, and the client is as it was behind the opening. `open_file` returns the
  -- number of bytes that were written, at least the size found, or the `IoError` of a stream, or
  -- has not ended; it does not panic. The streams may move fewer bytes than asked for, never more,
  -- or fail, at any call; closing the file succeeds.
  pub open_file-Partial :
      (stream : SftpReadStream H) (dest : H.LocalWriter)
      → MayFail
          (read_remote C H stream dest remaining written)
          (write_local C H stream dest remaining written)
          remaining
          written
      → ((w : H.World) → H.on_read stream.file w ≡ (ok tt, w))
      → (writes rounds : ℕ) (path : Text) (f : File C.UnixPex) (s found opened : SftpState H)
      → session_live H s.client.session s.world ≡ true
      → stat C H path s ≡ (ok f, found)
      → open_read C H path found ≡ (ok stream, opened)
      → Partial remaining written f.metadata.size (open_file C H writes rounds path dest s) opened
  open_file-Partial stream dest h closes writes rounds path f s found opened live stat_ok open_ok =
      rw
        (open_file-receive C H stream dest remaining written writes rounds path f s found opened
          live stat_ok open_ok)
        (loop-Partial remaining written (read_remote C H stream dest remaining written)
          (write_local C H stream dest remaining written) (H.on_read stream.file) h closes writes
          rounds f.metadata.size opened)
