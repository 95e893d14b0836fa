-- ===== src/Ssh/Sftp/Files/Receiving.antt =====
-- src/ssh/sftp.rs, `open_file`: the whole download.
use remotefs_rs_ssh.Prelude.{ℕ, ◌+◌, ◌≤◌, ◌<◌, ◌≡◌, ◌∙◌, true, List, ◌++◌, length}
use remotefs_rs_ssh.Text.{Text}
use remotefs_rs_ssh.Remotefs.{File, new_ex, io_error}
use remotefs_rs_ssh.Exec.{steps, Exec, ok, ◌>>=◌, ◌>>◌}
use remotefs_rs_ssh.Foreign.{call, on_world}
use remotefs_rs_ssh.Host.{Host}
use remotefs_rs_ssh.Crates.{Crates}
use remotefs_rs_ssh.Ssh.Stream.Reading
use remotefs_rs_ssh.Ssh.Stream.Reading.{SftpReadStream}
use remotefs_rs_ssh.Ssh.Sftp.Client.{SftpState, session_live, is_connected}
use remotefs_rs_ssh.Ssh.Sftp.Ops.{stat}
use remotefs_rs_ssh.Ssh.Sftp.Files.{open_read, open_file, receive}
use remotefs_rs_ssh.Ssh.Sftp.Transfer.{buffer_size}
use remotefs_rs_ssh.Ssh.Sftp.Transfer.Streams.{IsStream}
use remotefs_rs_ssh.Ssh.Sftp.Transfer.Complete.{Transferred, copy_loop-Transferred}
use remotefs_rs_ssh.Ssh.Sftp.Transfer.World.{copy_loop-on_world}

module _ (C : Crates) (H : Host) (stream : SftpReadStream H) (dest : H.LocalWriter)
    (remaining written : H.World → List ℕ) where
  open H use {World}

  abbrev pub read_remote : ℕ → Exec World (List ℕ)
  read_remote n = call (new_ex io_error) (Reading.read stream n)

  abbrev pub write_local : List ℕ → Exec World ℕ
  write_local bytes = call (new_ex io_error) (H.local_write dest bytes)

  -- What a finished download leaves, from the state in which the remote file is open.
  pub record Received (result : Exec (SftpState H) ℕ) (size : ℕ) (s opened : SftpState H)
      : Type 0 where
    pub moved : List ℕ
    pub after : World
    pub returns : result s ≡ (ok (length moved), record opened { world = after })
    pub taken : remaining opened.world ≡ moved ++ remaining after
    pub put : written after ≡ written opened.world ++ moved
    pub reaches : size ≤ length moved
    pub stops : length moved < size + buffer_size

  -- The rest of the call behind the open stream.
  abbrev pub receive_and_close : ℕ → ℕ → ℕ → Exec (SftpState H) ℕ
  receive_and_close writes rounds size = receive C H writes rounds stream dest size >>= λ n.
      on_world (H.on_read stream.file) >> λ t. (ok n, t)

  pub open_file-receive :
      (writes rounds : ℕ) (path : Text) (f : File C.UnixPex) (s found opened : SftpState H)
      → session_live H s.client.session s.world ≡ true
      → stat C H path s ≡ (ok f, found)
      → open_read C H path found ≡ (ok stream, opened)
      → open_file C H writes rounds path dest s
        ≡ receive_and_close writes rounds f.metadata.size opened
  unfolding open_file is_connected steps
  open_file-receive writes rounds path f s found opened live stat_ok open_ok =
      rw (live, stat_ok, open_ok)

  receive_returns :
      (writes rounds size : ℕ) (opened : SftpState H)
      → (t : Transferred read_remote write_local remaining written writes rounds size opened.world)
      → ((w : World) → H.on_read stream.file w ≡ (ok tt, w))
      → receive_and_close writes rounds size opened
        ≡ (ok (length t.moved), record opened { world = t.after })
  unfolding steps on_world
  receive_returns writes rounds size opened t closes = rw (
    copy_loop-on_world read_remote write_local writes rounds size 0 opened,
    t.returns,
    closes t.after,
  )

  -- On a live session, once the remote file is found with a size and opened, and where it holds at
  -- least that many bytes: `open_file` returns the number of bytes that it moved, which are a
  -- front part of the remote file, complete and in order in the destination; they are at least the
  -- size found, and less than one buffer more. Nothing of the client changes after the opening.
  -- The streams keep to the contracts of Read and Write, the fuel covers the size in rounds and a
  -- buffer in writes, and closing the file succeeds.
  pub open_file-Received :
      (h : IsStream read_remote write_local remaining written)
      → ((w : World) → H.on_read stream.file w ≡ (ok tt, w))
      → (writes rounds : ℕ) (path : Text) (f : File C.UnixPex) (s found opened : SftpState H)
      → buffer_size ≤ writes
      → session_live H s.client.session s.world ≡ true
      → stat C H path s ≡ (ok f, found)
      → open_read C H path found ≡ (ok stream, opened)
      → f.metadata.size ≤ rounds
      → f.metadata.size ≤ length (remaining opened.world)
      → Received (open_file C H writes rounds path dest) f.metadata.size s opened
  open_file-Received h closes writes rounds path f s found opened room live stat_ok open_ok fuel
        enough =
      let t =
        copy_loop-Transferred read_remote write_local remaining written h writes rounds
          f.metadata.size opened.world room fuel enough in
      record {
        moved = t.moved;
        after = t.after;
        returns =
            open_file-receive writes rounds path f s found opened live stat_ok open_ok
            ∙ receive_returns writes rounds f.metadata.size opened t closes;
        taken = t.taken;
        put = t.put;
        reaches = t.reaches;
        stops = t.stops;
      }
