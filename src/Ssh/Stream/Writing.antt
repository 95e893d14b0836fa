-- ===== src/Ssh/Stream/Writing.antt =====
-- src/ssh/stream.rs: SftpWriteStream, the stream that writes a remote file.
use remotefs_rs_ssh.Prelude.{ℕ, List}
use remotefs_rs_ssh.Host.{Host, Reply, SeekFrom}

pub record SftpWriteStream (H : Host) : Type 0 where
  pub file : H.RemoteFile

module _ {H : Host} where
  -- `From<Ssh2File> for SftpWriteStream`
  abbrev pub from_file : H.RemoteFile → SftpWriteStream H
  from_file f = record { file = f }

  -- `Write::flush`
  unfoldable pub flush : SftpWriteStream H → H.World → Reply (Unit {0}) × H.World
  flush stream w = H.file_flush stream.file w

  -- `Write::write`
  unfoldable pub write : SftpWriteStream H → List ℕ → H.World → Reply ℕ × H.World
  write stream bytes w = H.file_write stream.file bytes w

  -- `Seek::seek`
  unfoldable pub seek : SftpWriteStream H → SeekFrom → H.World → Reply ℕ × H.World
  seek stream pos w = H.file_seek stream.file pos w
