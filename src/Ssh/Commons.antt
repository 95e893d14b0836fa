-- ===== src/Ssh/Commons.antt =====
-- src/ssh/commons.rs: the connection, and commands on a connected session.
pub mod Connect
pub mod Shell
