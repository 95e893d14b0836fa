-- ===== src/Ssh/Sftp.antt =====
-- src/ssh/sftp.rs: the file system by the sftp protocol.
pub mod Client
pub mod Entry
pub mod Ops
pub mod Transfer
pub mod Files
pub mod Calls
pub mod Panics
pub mod Server
