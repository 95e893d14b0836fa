-- ===== src/Ssh/Sftp/Files/Sending.antt =====
-- src/ssh/sftp.rs, `create_file`: the whole call, from the open stream to the returned count.
use remotefs_rs_ssh.Prelude.{ℕ, ◌+◌, ◌≤◌, ◌<◌, ◌≡◌, ◌∙◌, true, List, ◌++◌, length, arith}
use remotefs_rs_ssh.Text.{Text}
use remotefs_rs_ssh.Remotefs.{Metadata, new_ex, io_error}
use remotefs_rs_ssh.Exec.{steps, Exec, ok, diverged, ◌>>=◌, ◌>>◌}
use remotefs_rs_ssh.Foreign.{call, on_world}
use remotefs_rs_ssh.Host.{Host}
use remotefs_rs_ssh.Crates.{Crates}
use remotefs_rs_ssh.Ssh.Stream.Writing
use remotefs_rs_ssh.Ssh.Stream.Writing.{SftpWriteStream}
use remotefs_rs_ssh.Ssh.Sftp.Client.{SftpState, session_live, is_connected}
use remotefs_rs_ssh.Ssh.Sftp.Files.{create, create_file, append, append_file, send}
use remotefs_rs_ssh.Ssh.Sftp.Transfer.{buffer_size, copy_loop}
use remotefs_rs_ssh.Ssh.Sftp.Transfer.Streams.{IsStream}
use remotefs_rs_ssh.Ssh.Sftp.Transfer.Complete.{Transferred, copy_loop-Transferred}
use remotefs_rs_ssh.Ssh.Sftp.Transfer.Stall.{copy_loop_stalls}
use remotefs_rs_ssh.Ssh.Sftp.Transfer.World.{copy_loop-on_world}

module _ (C : Crates) (H : Host) (reader : H.LocalReader) (stream : SftpWriteStream H)
    (remaining written : H.World → List ℕ) where
  open H use {World}

  abbrev pub read_local : ℕ → Exec World (List ℕ)
  read_local n = call (new_ex io_error) (H.local_read reader n)

  abbrev pub write_remote : List ℕ → Exec World ℕ
  write_remote bytes = call (new_ex io_error) (Writing.write stream bytes)

  -- What a finished upload leaves, from the state in which the remote file is open.
  pub record Sent (result : Exec (SftpState H) ℕ) (size : ℕ) (s opened : SftpState H) : Type 0 where
    pub moved : List ℕ
    pub after : World
    pub returns : result s ≡ (ok (length moved), record opened { world = after })
    pub taken : remaining opened.world ≡ moved ++ remaining after
    pub put : written after ≡ written opened.world ++ moved
    pub reaches : size ≤ length moved
    pub stops : length moved < size + buffer_size

  -- The rest of the call behind the open stream.
  abbrev pub send_and_close : ℕ → ℕ → ℕ → Exec (SftpState H) ℕ
  send_and_close writes rounds size = send C H writes rounds reader stream size >>= λ n.
      on_world (H.on_written stream.file) >> λ t. (ok n, t)

  pub create_file-send :
      (writes rounds : ℕ) (path : Text) (metadata : Metadata C.UnixPex) (s opened : SftpState H)
      → session_live H s.client.session s.world ≡ true
      → create C H path metadata s ≡ (ok stream, opened)
      → create_file C H writes rounds path metadata reader s
        ≡ send_and_close writes rounds metadata.size opened
  unfolding create_file is_connected steps
  create_file-send writes rounds path metadata s opened live open_ok = rw (live, open_ok)

  pub append_file-send :
      (writes rounds : ℕ) (path : Text) (metadata : Metadata C.UnixPex) (s opened : SftpState H)
      → session_live H s.client.session s.world ≡ true
      → append C H path metadata s ≡ (ok stream, opened)
      → append_file C H writes rounds path metadata reader s
        ≡ send_and_close writes rounds metadata.size opened
  unfolding append_file is_connected steps
  append_file-send writes rounds path metadata s opened live open_ok = rw (live, open_ok)

  send_returns :
      (writes rounds size : ℕ) (opened : SftpState H)
      → (t : Transferred read_local write_remote remaining written writes rounds size opened.world)
      → ((w : World) → H.on_written stream.file w ≡ (ok tt, w))
      → send_and_close writes rounds size opened
        ≡ (ok (length t.moved), record opened { world = t.after })
  unfolding steps on_world
  send_returns writes rounds size opened t closes = rw (
    copy_loop-on_world read_local write_remote writes rounds size 0 opened,
    t.returns,
    closes t.after,
  )

  send_diverges :
      (writes rounds size : ℕ) (opened : SftpState H)
      → (copy_loop read_local write_remote writes rounds size 0 opened.world).0 ≡ diverged
      → (send_and_close writes rounds size opened).0 ≡ diverged
  unfolding steps on_world
  send_diverges writes rounds size opened stalls =
      rw (copy_loop-on_world read_local write_remote writes rounds size 0 opened, stalls)

  module _ (h : IsStream read_local write_remote remaining written)
      (closes : (w : World) → H.on_written stream.file w ≡ (ok tt, w)) (writes rounds : ℕ)
      (path : Text) (metadata : Metadata C.UnixPex) (s opened : SftpState H)
      (room : buffer_size ≤ writes) (live : session_live H s.client.session s.world ≡ true) where
    -- On a live session, once `create` has opened the remote file, from a reader that holds at
    -- least the announced size: `create_file` returns the number of bytes that it moved, which are
    -- a front part of the reader, complete and in order in the remote file; they are at least the
    -- announced size, and less than one buffer more. Nothing of the client changes after the
    -- opening. The streams keep to the contracts of Read and Write, the fuel covers the size in
    -- rounds and a buffer in writes, and closing the file succeeds.
    pub create_file-Sent :
        create C H path metadata s ≡ (ok stream, opened)
        → metadata.size ≤ rounds
        → metadata.size ≤ length (remaining opened.world)
        → Sent (create_file C H writes rounds path metadata reader) metadata.size s opened
    create_file-Sent open_ok fuel enough =
        let t =
          copy_loop-Transferred read_local write_remote remaining written h writes rounds
            metadata.size opened.world room fuel enough in
        record {
          moved = t.moved;
          after = t.after;
          returns =
              create_file-send writes rounds path metadata s opened live open_ok
              ∙ send_returns writes rounds metadata.size opened t closes;
          taken = t.taken;
          put = t.put;
          reaches = t.reaches;
          stops = t.stops;
        }

    -- On a live session, once `append` has opened the remote file, from a reader that holds at
    -- least the announced size: `append_file` returns the number of bytes that it moved, which are
    -- a front part of the reader, complete and in order behind what the remote file held; they are
    -- at least the announced size, and less than one buffer more. Nothing of the client changes
    -- after the opening. The streams keep to the contracts of Read and Write, the fuel covers the
    -- size in rounds and a buffer in writes, and closing the file succeeds.
    pub append_file-Sent :
        append C H path metadata s ≡ (ok stream, opened)
        → metadata.size ≤ rounds
        → metadata.size ≤ length (remaining opened.world)
        → Sent (append_file C H writes rounds path metadata reader) metadata.size s opened
    append_file-Sent open_ok fuel enough =
        let t =
          copy_loop-Transferred read_local write_remote remaining written h writes rounds
            metadata.size opened.world room fuel enough in
        record {
          moved = t.moved;
          after = t.after;
          returns =
              append_file-send writes rounds path metadata s opened live open_ok
              ∙ send_returns writes rounds metadata.size opened t closes;
          taken = t.taken;
          put = t.put;
          reaches = t.reaches;
          stops = t.stops;
        }

    -- On a live session, once `create` has opened the remote file, from a reader that holds fewer
    -- bytes than the announced size, `create_file` does not return, whatever the fuel for its
    -- rounds. The streams keep to the contracts of Read and Write and do not fail, and the fuel
    -- covers a buffer in writes.
    pub create_file_stalls :
        create C H path metadata s ≡ (ok stream, opened)
        → length (remaining opened.world) < metadata.size
        → (create_file C H writes rounds path metadata reader s).0 ≡ diverged
    create_file_stalls open_ok short =
        rw (create_file-send writes rounds path metadata s opened live open_ok) (
          send_diverges writes rounds metadata.size opened (
            copy_loop_stalls read_local write_remote remaining written h writes rounds metadata.size
              0 opened.world room (omega arith)))
