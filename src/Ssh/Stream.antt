-- ===== src/Ssh/Stream.antt =====
-- src/ssh/stream.rs: the streams of a remote file.
pub mod Reading
pub mod Writing
