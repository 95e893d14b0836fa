-- ===== src/Ssh/Scp.antt =====
-- src/ssh/scp.rs: the file system by shell commands and the scp protocol.
pub mod Listing
pub mod Client
pub mod Ops
pub mod Change
pub mod Shell
pub mod Calls
