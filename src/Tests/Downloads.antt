-- ===== src/Tests/Downloads.antt =====
-- A download of src/ssh/sftp.rs on the scripted host.
use remotefs_rs_ssh.Prelude.{ℕ, ◌≡◌, refl, none, some, [], ◌∷◌, arith}
use remotefs_rs_ssh.Text.{codes, text_eq}
use remotefs_rs_ssh.Utils.{absolutize}
use remotefs_rs_ssh.Remotefs.{File, file}
use remotefs_rs_ssh.Exec.{ok}
use remotefs_rs_ssh.Foreign.{world_steps}
use remotefs_rs_ssh.Host.{FileStat}
use remotefs_rs_ssh.Ssh.Sftp.Client.{SftpState, check_connection, is_connected}
use remotefs_rs_ssh.Ssh.Sftp.Entry.{make_fsentry}
use remotefs_rs_ssh.Ssh.Sftp.Ops.{stat, exists}
use remotefs_rs_ssh.Ssh.Sftp.Files.{open_read, open_file}
use remotefs_rs_ssh.Ssh.Sftp.Files.Receiving.{Received, open_file-Received}
use remotefs_rs_ssh.Ssh.Sftp.Transfer.{buffer_size}
use remotefs_rs_ssh.Tests.Script.{scripted, plain_crates, quiet}
use remotefs_rs_ssh.Tests.Transfers.{client, inp, scripted_download-IsStream}

abbrev pub four : FileStat
four = record { size = some 4; uid = some 0; gid = none; perm = none; atime = none; mtime = none }

abbrev shelf : SftpState scripted
shelf = record {
  client = client;
  world = record quiet {
    source = 1 ∷ 2 ∷ 3 ∷ 4 ∷ 5 ∷ [];
    files = (codes "/home/a.txt", four) ∷ [];
  };
}

abbrev pub a_file : File ℕ
a_file = record {
  path = codes "/home/a.txt";
  metadata = record {
    accessed = none;
    created = none;
    file_type = file;
    gid = none;
    mode = none;
    modified = none;
    size = 4;
    symlink = none;
    uid = some 0;
  };
}

finds : stat plain_crates scripted (codes "a.txt") shelf ≡ (ok a_file, shelf)
unfolding stat make_fsentry absolutize text_eq world_steps
finds = refl

opens_read : open_read plain_crates scripted (codes "a.txt") shelf ≡ (ok inp, shelf)
unfolding open_read exists stat make_fsentry absolutize text_eq check_connection is_connected
    world_steps
opens_read = refl

open_file-Received_example :
    Received plain_crates scripted inp tt
      (λ w. w.source)
      (λ w. w.sink)
      (open_file plain_crates scripted buffer_size 4 (codes "a.txt") tt)
      4
      shelf
      shelf
open_file-Received_example =
    open_file-Received plain_crates scripted inp tt (λ w. w.source) (λ w. w.sink)
      scripted_download-IsStream (λ w. refl) buffer_size 4 (codes "a.txt") a_file shelf shelf shelf
      (omega arith) refl finds opens_read (omega arith) (omega arith)
