-- ===== src/Lib.antt =====
-- remotefs-ssh: a client for remote file systems over SSH, by SCP or by SFTP.
--
-- The program. Both clients, `ScpFs` (src/ssh/scp.rs) and `SftpFs` (src/ssh/sftp.rs), implement the
-- trait `RemoteFs` of the remotefs crate: connect, change the working directory, list, stat, change
-- and transfer files. They share the options (src/ssh/mod.rs), the configuration found for a host
-- (src/ssh/config.rs), and the set-up of a session and the shell commands (src/ssh/commons.rs). The
-- SCP client runs shell commands for all but the transfers, and reads their output; the SFTP client
-- calls the SFTP subsystem of the ssh2 crate. src/utils resolves paths and reads and writes dates.
--
-- The model. An operation is a function from a state to an outcome and a state (Exec.antt): `Ok`,
-- `Err`, a panic, or a loop that has not ended. The state is the client beside the world, which is
-- everything outside the process (Foreign.antt). What the program calls of other crates and of the
-- operating system is the record `Host` (Host.antt), and what it computes with other crates is the
-- record `Crates` (Crates.antt); both are parameters of all definitions. The types of the remotefs
-- crate that the program fills and reads are in Remotefs.antt.
--
-- The files.
--   Prelude.antt        library names, Boolean tests on the native numbers, lemmas on lists
--   Text.antt           strings as lists of code points, with the byte offsets of UTF-8: trim,
--                       slices, search, split, lines; Text/Number.antt prints and reads numbers,
--                       Text/Equal.antt compares
--   FilePath.antt       std::path on Unix
--   Exec.antt           actions and their outcomes; Exec/Keeps, Ensures, Calm and Laws
--                       reason on them
--   Host.antt, Crates.antt, Remotefs.antt, Foreign.antt
--                       what belongs to other crates, and the calls of it
--   Utils.antt          src/utils/path.rs (absolutize), src/utils/parser.rs (parse_lstime),
--                       src/utils/fmt.rs (fmt_time_utc)
--   Ssh/Opts.antt       src/ssh/mod.rs: SshOpts and its builders
--   Ssh/Config.antt     src/ssh/config.rs: Config; Config/Address on its address
--   Ssh/Commons/Connect.antt
--                       src/ssh/commons.rs: connect and the authentications; its children are on the
--                       authentication, the agent's identities, the attempts, the preferences,
--                       and panics
--   Ssh/Commons/Shell.antt
--                       src/ssh/commons.rs: perform_shell_cmd and the exit code behind its output
--   Ssh/Scp/Listing.antt
--                       src/ssh/scp.rs: parse_ls_output and the entries of list_dir; its children are
--                       on the modes, the names, the columns of entries, whole listings, the paths,
--                       the panics
--   Ssh/Scp/Client.antt, Ops.antt, Change.antt
--                       src/ssh/scp.rs: the state, the checks, and each operation of ScpFs
--                       Ops/ChangeDir, ListDir, Stat, Root and RemoteExec on what the shell
--                       answers
--   Ssh/Scp/Shell.antt  the specification of the changes: a machine that runs shell commands;
--                       its children read lines as a POSIX shell does, and run the operations
--                       on such a shell
--   Ssh/Scp/Calls.antt  src/ssh/scp.rs: all operations as one type; its children are on calls without a
--                       connection, on the client, and on sessions
--   Ssh/Stream.antt     src/ssh/stream.rs: the streams of a remote file, in its two children
--   Ssh/Sftp/Client.antt, Entry.antt, Ops.antt
--                       src/ssh/sftp.rs: the state, the metadata, and each operation of SftpFs
--                       Ops/Existence and ListDir on what the server answers
--   Ssh/Sftp/Transfer.antt, Files.antt
--                       src/ssh/sftp.rs: the copying loops and the operations that use them
--                       Files/RoundTrip on an upload and its download, Files/Partial on streams
--                       that fail
--   Ssh/Sftp/Server.antt
--                       the specification of the changes: the entries of a server and the paths that
--                       lead to them, the effects of requests, and the contract of a server;
--                       its children run single calls and sequences against it
--   Ssh/Sftp/Calls.antt src/ssh/sftp.rs: all operations as one type, as for SCP; Calls/Home
--                       on what connect leaves, Calls/History on the clients that calls
--                       lead to, by Panics.antt
--   Tests.antt          a host that plays a script, runs, and the theorems at concrete inputs
--
-- Bounds and fuel. A `while` loop runs on fuel, and its outcome is `diverged` where the fuel ends.
-- The copying loops take one fuel for the rounds and one for the writes of a chunk: each round reads
-- at least one byte while there is one, and each write takes at least one, so that the size of the
-- file and the size of the buffer, 65535 bytes, are enough. Exit codes are below 2 ^ 32 and numbers
-- of the listing below 2 ^ 64, as the parsers of u32 and u64 have it. A reader that tells more bytes
-- than the buffer holds makes the slice of the buffer panic.
--
-- Not modelled. The paths are those of Unix, and the part of src/utils/path.rs for Windows is left
-- out, as are the accessors `session` and `sftp` of the clients. The log lines have no effect on the
-- result. src/mock is test support.
pub mod Prelude
pub mod Text
pub mod FilePath
pub mod Remotefs
pub mod Exec
pub mod Crates
pub mod Host
pub mod Foreign
pub mod Utils
pub mod Ssh
mod Tests
