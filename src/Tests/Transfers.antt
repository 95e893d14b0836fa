-- ===== src/Tests/Transfers.antt =====
-- Runs and instances for the copying loop of src/ssh/sftp.rs.
use remotefs_rs_ssh.Prelude.{
  ℕ, zero, suc, ◌≤◌, ◌<◌, ◌≡◌, ◌≢◌, refl, sym, List, [], ◌∷◌, ◌++◌, length, take, drop, some, none,
  take-append-drop, arith,
}
use remotefs_rs_ssh.Text.{codes}
use remotefs_rs_ssh.Remotefs.{Metadata, FileType}
use remotefs_rs_ssh.Exec.{ok, diverged}
use remotefs_rs_ssh.Foreign.{world_steps}
use remotefs_rs_ssh.Ssh.Opts.{new}
use remotefs_rs_ssh.Ssh.Sftp.Files.Receiving.{read_remote, write_local}
use remotefs_rs_ssh.Ssh.Stream.Reading
use remotefs_rs_ssh.Ssh.Stream.Reading.{SftpReadStream}
use remotefs_rs_ssh.Ssh.Stream.Writing
use remotefs_rs_ssh.Ssh.Stream.Writing.{SftpWriteStream}
use remotefs_rs_ssh.Ssh.Sftp.Client.{SftpFs, SftpState}
use remotefs_rs_ssh.Ssh.Sftp.Files.{create, create_file}
use remotefs_rs_ssh.Ssh.Sftp.Files.Sending.{
  read_local, write_remote, Sent, create_file-Sent, create_file_stalls,
}
use remotefs_rs_ssh.Ssh.Sftp.Transfer.{write_chunk, write_all, buffer_size, copy_loop}
use remotefs_rs_ssh.Ssh.Sftp.Transfer.Streams.{IsStream}
use remotefs_rs_ssh.Tests.Script.{scripted, plain_crates, quiet, span, part}

pub length-take_le : (n : ℕ) (xs : List ℕ) → length (take n xs) ≤ n
length-take_le zero xs = omega arith
length-take_le (suc n) [] = omega arith
length-take_le (suc n) (x ∷ xs) = omega (arith, length-take_le n xs)

take_pos : (n : ℕ) (xs : List ℕ) → 0 < n → xs ≢ [] → 0 < length (take n xs)
take_pos zero xs h k = elim h [ ]
take_pos (suc n) [] h k = absurd (k refl)
take_pos (suc n) (x ∷ xs) h k = omega arith

pub span_le : (n : ℕ) → span n ≤ n
span_le n = ground arith

span_pos : (n : ℕ) → 0 < n → 0 < span n
span_pos n h = ground arith

part_le : (bytes : List ℕ) → bytes ≢ [] → part bytes ≤ length bytes
part_le [] h = absurd (h refl)
part_le (b ∷ bytes) h = ground arith

part_pos : (bytes : List ℕ) → 0 < part bytes
part_pos bytes = ground arith

-- The remote file, open for writing and for reading.
abbrev pub out : SftpWriteStream scripted
out = record { file = tt }

abbrev pub inp : SftpReadStream scripted
inp = record { file = tt }

pub scripted-IsStream :
    IsStream
      (read_local plain_crates scripted tt out (λ w. w.source) (λ w. w.sink))
      (write_remote plain_crates scripted tt out (λ w. w.source) (λ w. w.sink))
      (λ w. w.source)
      (λ w. w.sink)
unfolding world_steps Writing.write
scripted-IsStream = record {
  read_step = λ n s pos. record {
    chunk = take (span n) s.source;
    after = record s { source = drop (span n) s.source };
    returns = refl;
    taken = sym (take-append-drop (span n) s.source);
    fits = omega (arith, length-take_le (span n) s.source, span_le n);
    progress = λ some_left. take_pos (span n) s.source (span_pos n pos) some_left;
    sink_kept = refl;
  };
  write_step = λ bytes s some_bytes. record {
    count = part bytes;
    after = record s { sink = s.sink ++ take (part bytes) bytes };
    returns = refl;
    progress = part_pos bytes;
    fits = part_le bytes some_bytes;
    put = refl;
    source_kept = refl;
  };
}

pub scripted_download-IsStream :
    IsStream
      (read_remote plain_crates scripted inp tt (λ w. w.source) (λ w. w.sink))
      (write_local plain_crates scripted inp tt (λ w. w.source) (λ w. w.sink))
      (λ w. w.source)
      (λ w. w.sink)
unfolding Writing.write Reading.read
scripted_download-IsStream = scripted-IsStream

abbrev pub client : SftpFs scripted
client = record {
  session = some tt;
  sftp = some tt;
  wrkdir = codes "/home";
  opts = new {ParseRule = Unit {0}} tt (codes "localhost");
}

abbrev pub start : SftpState scripted
start = record { client = client; world = record quiet { source = 1 ∷ 2 ∷ 3 ∷ 4 ∷ 5 ∷ [] } }

abbrev pub sized : ℕ → Metadata ℕ
sized n = record {
  accessed = none;
  created = none;
  file_type = FileType.file;
  gid = none;
  mode = none;
  modified = none;
  size = n;
  symlink = none;
  uid = none;
}

-- The third byte is read with the second, and the fifth with the fourth.
two_rounds :
    (copy_loop
      (read_local plain_crates scripted tt out (λ w. w.source) (λ w. w.sink))
      (write_remote plain_crates scripted tt out (λ w. w.source) (λ w. w.sink))
      10
      10
      4
      0
      start.world).0
    ≡ ok 5
unfolding copy_loop write_chunk write_all Writing.write world_steps
two_rounds = refl

opens : create plain_crates scripted (codes "a.txt") (sized 4) start ≡ (ok out, start)
unfolding create world_steps
opens = refl

opens_more : create plain_crates scripted (codes "a.txt") (sized 6) start ≡ (ok out, start)
unfolding create world_steps
opens_more = refl

create_file-Sent_example :
    Sent plain_crates scripted tt out
      (λ w. w.source)
      (λ w. w.sink)
      (create_file plain_crates scripted buffer_size 4 (codes "a.txt") (sized 4) tt)
      4
      start
      start
create_file-Sent_example =
    create_file-Sent plain_crates scripted tt out (λ w. w.source) (λ w. w.sink) scripted-IsStream
      (λ w. refl) buffer_size 4 (codes "a.txt") (sized 4) start start (omega arith) refl opens
      (omega arith) (omega arith)

create_file_stalls_example :
    (create_file plain_crates scripted buffer_size 100 (codes "a.txt") (sized 6) tt start).0
    ≡ diverged
create_file_stalls_example =
    create_file_stalls plain_crates scripted tt out (λ w. w.source) (λ w. w.sink) scripted-IsStream
      (λ w. refl) buffer_size 100 (codes "a.txt") (sized 6) start start (omega arith) refl
      opens_more (omega arith)
