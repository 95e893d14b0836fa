-- ===== src/Ssh.antt =====
-- src/ssh/: the options, the connection and the two file systems on top of it.
pub mod Opts
pub mod Config
pub mod Commons
pub mod Scp
pub mod Stream
pub mod Sftp
