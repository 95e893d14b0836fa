-- ===== src/Tests/Bytes.antt =====
-- An upload and its download on a host that keeps what was written.
use remotefs_rs_ssh.Prelude.{ℕ, ◌≡◌, refl, none, some, [], ◌∷◌, arith, length}
use remotefs_rs_ssh.Text.{codes}
use remotefs_rs_ssh.Utils.{absolutize}
use remotefs_rs_ssh.Remotefs.{File}
use remotefs_rs_ssh.Exec.{ok}
use remotefs_rs_ssh.Foreign.{world_steps}
use remotefs_rs_ssh.Host.{Host, answer}
use remotefs_rs_ssh.Ssh.Opts.{new}
use remotefs_rs_ssh.Ssh.Stream.Reading
use remotefs_rs_ssh.Ssh.Stream.Reading.{SftpReadStream}
use remotefs_rs_ssh.Ssh.Stream.Writing
use remotefs_rs_ssh.Ssh.Stream.Writing.{SftpWriteStream}
use remotefs_rs_ssh.Ssh.Sftp.Client.{SftpState, check_connection, is_connected}
use remotefs_rs_ssh.Ssh.Sftp.Entry.{make_fsentry}
use remotefs_rs_ssh.Ssh.Sftp.Ops.{stat, exists}
use remotefs_rs_ssh.Ssh.Sftp.Files.{create, create_file, open_read}
use remotefs_rs_ssh.Ssh.Sftp.Files.RoundTrip.{Returned, upload-download}
use remotefs_rs_ssh.Ssh.Sftp.Transfer.{write_chunk, buffer_size, copy_loop, write_all}
use remotefs_rs_ssh.Tests.Script.{scripted, plain_crates, quiet}
use remotefs_rs_ssh.Tests.Transfers.{scripted-IsStream, scripted_download-IsStream, sized}

-- What was written is there to be read once the file is opened again.
abbrev storing : Host
storing = record scripted {
  sftp_stat = λ f p w. (
    answer (record {
      size = some (length w.sink);
      uid = none;
      gid = none;
      perm = none;
      atime = none;
      mtime = none;
    }),
    w,
  );
  sftp_open = λ f p w. (answer tt, record w { source = w.sink; sink = [] });
}

abbrev up : SftpWriteStream storing
up = record { file = tt }

abbrev down : SftpReadStream storing
down = record { file = tt }

abbrev start : SftpState storing
start = record {
  client = record {
    session = some tt;
    sftp = some tt;
    wrkdir = codes "/home";
    opts = new {ParseRule = Unit {0}} tt (codes "localhost");
  };
  world = record quiet { source = 1 ∷ 2 ∷ 3 ∷ 4 ∷ 5 ∷ [] };
}

abbrev stored : SftpState storing
stored = record start { world = record quiet { sink = 1 ∷ 2 ∷ 3 ∷ 4 ∷ 5 ∷ [] } }

abbrev reopened : SftpState storing
reopened = record start { world = record quiet { source = 1 ∷ 2 ∷ 3 ∷ 4 ∷ 5 ∷ [] } }

abbrev five : File ℕ
five = record { path = codes "/home/a.txt"; metadata = sized 5 }

creates : create plain_crates storing (codes "a.txt") (sized 5) start ≡ (ok up, start)
unfolding create world_steps
creates = refl

uploads :
    (create_file plain_crates storing buffer_size 5 (codes "a.txt") (sized 5) tt start).1 ≡ stored
unfolding create_file create copy_loop write_chunk write_all Writing.write is_connected world_steps
uploads = refl

finds : stat plain_crates storing (codes "a.txt") stored ≡ (ok five, stored)
unfolding stat make_fsentry absolutize world_steps
finds = refl

reopens : open_read plain_crates storing (codes "a.txt") stored ≡ (ok down, reopened)
unfolding open_read exists stat make_fsentry absolutize check_connection is_connected world_steps
reopens = refl

upload-download_example :
    Returned plain_crates storing tt tt up down
      (λ w. w.source)
      (λ w. w.sink)
      (λ w. w.source)
      (λ w. w.sink)
      buffer_size
      5
      5
      (codes "a.txt")
      (sized 5)
      (1 ∷ 2 ∷ 3 ∷ 4 ∷ 5 ∷ [])
      start
      stored
      reopened
unfolding Writing.write Reading.read
upload-download_example =
    upload-download plain_crates storing tt tt up down (λ w. w.source) (λ w. w.sink) (λ w. w.source)
      (λ w. w.sink) scripted-IsStream (λ w. refl) scripted_download-IsStream (λ w. refl) buffer_size
      5 5 (codes "a.txt") (sized 5) five start start stored stored reopened (omega arith) refl
      creates refl refl (omega arith) uploads refl finds refl (omega arith) reopens refl
