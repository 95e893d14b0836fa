-- ===== src/Ssh/Stream/Reading.antt =====
-- src/ssh/stream.rs: SftpReadStream, the stream that reads a remote file.
use remotefs_rs_ssh.Prelude.{ℕ, List}
use remotefs_rs_ssh.Host.{Host, Reply, SeekFrom}

pub record SftpReadStream (H : Host) : Type 0 where
  pub file : H.RemoteFile

module _ {H : Host} where
  -- `From<Ssh2File> for SftpReadStream`
  abbrev pub from_file : H.RemoteFile → SftpReadStream H
  from_file f = record { file = f }

  -- `Read::read`
  unfoldable pub read : SftpReadStream H → ℕ → H.World → Reply (List ℕ) × H.World
  read stream room w = H.file_read stream.file room w

  -- `Seek::seek`
  unfoldable pub seek : SftpReadStream H → SeekFrom → H.World → Reply ℕ × H.World
  seek stream pos w = H.file_seek stream.file pos w
