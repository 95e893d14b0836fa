-- ===== src/Tests/Failures.antt =====
-- Transfers of src/ssh/sftp.rs on a host that has no room for more than four bytes.
use remotefs_rs_ssh.Prelude.{
  ℕ, ◌≡◌, refl, sym, some, List, [], ◌∷◌, ◌++◌, length, take, drop, ltb, if◌then◌else◌,
  take-append-drop, Bool-cases, inl, inr, arith,
}
use remotefs_rs_ssh.Text.{codes, text_eq}
use remotefs_rs_ssh.Utils.{absolutize}
use remotefs_rs_ssh.Remotefs.{new_ex, io_error}
use remotefs_rs_ssh.Exec.{ok, err}
use remotefs_rs_ssh.Foreign.{world_steps}
use remotefs_rs_ssh.Host.{Host, Reply, answer, failure}
use remotefs_rs_ssh.Ssh.Opts.{new}
use remotefs_rs_ssh.Ssh.Stream.Reading
use remotefs_rs_ssh.Ssh.Stream.Reading.{SftpReadStream}
use remotefs_rs_ssh.Ssh.Stream.Writing
use remotefs_rs_ssh.Ssh.Stream.Writing.{SftpWriteStream}
use remotefs_rs_ssh.Ssh.Sftp.Client.{SftpState, check_connection, is_connected}
use remotefs_rs_ssh.Ssh.Sftp.Entry.{make_fsentry}
use remotefs_rs_ssh.Ssh.Sftp.Ops.{stat, exists}
use remotefs_rs_ssh.Ssh.Sftp.Files.{create, create_file, open_read, open_file}
use remotefs_rs_ssh.Ssh.Sftp.Files.Sending.{read_local, write_remote}
use remotefs_rs_ssh.Ssh.Sftp.Files.Receiving.{read_remote, write_local}
use remotefs_rs_ssh.Ssh.Sftp.Files.Partial.{Partial, create_file-Partial, open_file-Partial}
use remotefs_rs_ssh.Ssh.Sftp.Transfer.{write_all, write_chunk, copy_loop}
use remotefs_rs_ssh.Ssh.Sftp.Transfer.Failing.{MayFail, took, put_part, write_failed}
use remotefs_rs_ssh.Tests.Script.{Stage, scripted, plain_crates, quiet, span, part}
use remotefs_rs_ssh.Tests.Transfers.{sized, length-take_le, span_le}
use remotefs_rs_ssh.Tests.Downloads.{four, a_file}

abbrev write_small : List ℕ → Stage → Reply ℕ × Stage
write_small bytes w =
    if ltb (length w.sink) 4
    then (answer (part bytes), record w { sink = w.sink ++ take (part bytes) bytes })
    else (failure (codes "no space left"), w)

abbrev small : Host
small = record scripted {
  file_write = λ f bytes w. write_small bytes w;
  local_write = λ f bytes w. write_small bytes w;
}

abbrev out : SftpWriteStream small
out = record { file = tt }

abbrev inp : SftpReadStream small
inp = record { file = tt }

small_upload :
    MayFail
      (read_local plain_crates small tt out (λ w. w.source) (λ w. w.sink))
      (write_remote plain_crates small tt out (λ w. w.source) (λ w. w.sink))
      (λ w. w.source)
      (λ w. w.sink)
unfolding world_steps Writing.write
small_upload = record {
  try_read = λ n s.
      took (take (span n) s.source) (record s { source = drop (span n) s.source }) refl
        (sym (take-append-drop (span n) s.source))
        (omega (arith, length-take_le (span n) s.source, span_le n)) refl;
  try_write = λ bytes s. elim (Bool-cases (ltb (length s.sink) 4)) [
    | inl room ↦
        put_part (part bytes) (record s { sink = s.sink ++ take (part bytes) bytes }) (rw room) refl
          refl
    | inr full ↦ write_failed (new_ex io_error (codes "no space left")) s (rw full) refl refl refl
  ];
}

small_download :
    MayFail
      (read_remote plain_crates small inp tt (λ w. w.source) (λ w. w.sink))
      (write_local plain_crates small inp tt (λ w. w.source) (λ w. w.sink))
      (λ w. w.source)
      (λ w. w.sink)
unfolding Writing.write Reading.read
small_download = small_upload

abbrev start : SftpState small
start = record {
  client = record {
    session = some tt;
    sftp = some tt;
    wrkdir = codes "/home";
    opts = new {ParseRule = Unit {0}} tt (codes "localhost");
  };
  world = record quiet {
    source = 1 ∷ 2 ∷ 3 ∷ 4 ∷ 5 ∷ 6 ∷ [];
    files = (codes "/home/a.txt", four) ∷ [];
  };
}

creates : create plain_crates small (codes "a.txt") (sized 6) start ≡ (ok out, start)
unfolding create world_steps
creates = refl

-- The sixth byte finds no room.
runs_full :
    (create_file plain_crates small 10 10 (codes "a.txt") (sized 6) tt start).0
    ≡ err (new_ex io_error (codes "no space left"))
unfolding create_file create copy_loop write_chunk write_all Writing.write is_connected world_steps
runs_full = refl

create_file-Partial_example :
    Partial
      (λ w. w.source)
      (λ w. w.sink)
      6
      (create_file plain_crates small 10 10 (codes "a.txt") (sized 6) tt start)
      start
create_file-Partial_example =
    create_file-Partial plain_crates small (λ w. w.source) (λ w. w.sink) tt out small_upload
      (λ w. refl) 10 10 (codes "a.txt") (sized 6) start start refl creates

finds : stat plain_crates small (codes "a.txt") start ≡ (ok a_file, start)
unfolding stat make_fsentry absolutize text_eq world_steps
finds = refl

opens_read : open_read plain_crates small (codes "a.txt") start ≡ (ok inp, start)
unfolding open_read exists stat make_fsentry absolutize text_eq check_connection is_connected
    world_steps
opens_read = refl

open_file-Partial_example :
    Partial
      (λ w. w.source)
      (λ w. w.sink)
      4
      (open_file plain_crates small 10 10 (codes "a.txt") tt start)
      start
open_file-Partial_example =
    open_file-Partial plain_crates small (λ w. w.source) (λ w. w.sink) inp tt small_download
      (λ w. refl) 10 10 (codes "a.txt") a_file start start start refl finds opens_read
