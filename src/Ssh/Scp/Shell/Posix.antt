-- ===== src/Ssh/Scp/Shell/Posix.antt =====
-- src/ssh/scp.rs on a host whose shell reads a line in words, and runs the program of these words.
use remotefs_rs_ssh.Prelude.{ℕ, ◌<◌, ◌^◌, ◌≡◌, true, some, List, [], ◌∷◌, ◌++◌, All, All-map}
use remotefs_rs_ssh.Text.{Text, newline}
use remotefs_rs_ssh.Text.Number.{decimal}
use remotefs_rs_ssh.FilePath.{is_absolute}
use remotefs_rs_ssh.Remotefs.{Metadata}
use remotefs_rs_ssh.Host.{Host, answer}
use remotefs_rs_ssh.Crates.{Crates}
use remotefs_rs_ssh.Ssh.Scp.Client.{ScpFs}
use remotefs_rs_ssh.Ssh.Scp.Change.{setstat}
use remotefs_rs_ssh.Ssh.Scp.Shell.{
  Command, line_of, ShellHost, Machine, Request, spec, commands_of, setstat_spec, setstat_commands,
}
use remotefs_rs_ssh.Ssh.Scp.Shell.Words.{read_words}
use remotefs_rs_ssh.Ssh.Scp.Shell.Lines.{echo, asked, words_of, IsPlainCommand, line_of-words}
use remotefs_rs_ssh.Ssh.Scp.Shell.Refines.{request, request-spec}
use remotefs_rs_ssh.Ssh.Scp.Shell.Attributes.{stamp, setstat-setstat_spec}

-- On any session a channel opens. A line that is read as the words of a silent program, with
-- `echo $?` behind it, runs that program, and prints its exit code and a newline; the session stays
-- as it was.
pub record WordHost (H : Host) : Type 1 where
  pub silent : List Text → Type 0
  pub run : H.Session → List Text → H.World → ℕ × H.World
  pub channel : H.Session → H.World → H.Channel
  pub opened : H.Session → H.World → H.World
  pub started : H.Session → List Text → H.World → H.World
  pub printed : H.Session → List Text → H.World → H.World
  pub exit_code :
      (x : H.Session) (words : List Text) (w : H.World) → silent words → (run x words w).0 < 2 ^ 32
  pub open_law :
      (x : H.Session) (w : H.World) → H.channel_session x w ≡ (answer (channel x w), opened x w)
  pub exec_law :
      (x : H.Session) (line : Text) (words : List Text) (w : H.World)
      → read_words line ≡ some (words, asked)
      → silent words
      → H.channel_exec (channel x w) line (opened x w) ≡ (answer tt, started x words w)
  pub print_law :
      (x : H.Session) (words : List Text) (w : H.World)
      → silent words
      → H.read_to_string (channel x w) (started x words w)
        ≡ (answer (decimal (run x words w).0 ++ newline ∷ []), printed x words w)
  pub close_law :
      (x : H.Session) (words : List Text) (w : H.World)
      → silent words
      → H.wait_close (channel x w) (printed x words w) ≡ (run x words w).1
  pub session_law :
      (x : H.Session) (words : List Text) (w : H.World)
      → silent words
      → H.authenticated x (run x words w).1 ≡ H.authenticated x w
  -- The programs of the commands print nothing.
  pub silent_commands : (k : Command) → silent (words_of k)

module _ (H : Host) (host : WordHost H) where
  -- The commands as they are read, where they are read as the given words.
  abbrev pub shell_of : (Command → List Text) → ShellHost H
  shell_of words = record {
    allowed = λ k. (read_words (line_of k ++ echo) ≡ some (words k, asked)) × host.silent (words k);
    machine = λ x k w. host.run x (words k) w;
    channel = host.channel;
    opened = host.opened;
    started = λ x k w. host.started x (words k) w;
    printed = λ x k w. host.printed x (words k) w;
    exit_code = λ x k w h. host.exit_code x (words k) w h.1;
    open_law = host.open_law;
    exec_law = λ x k w h. host.exec_law x (line_of k ++ echo) (words k) w h.0 h.1;
    print_law = λ x k w h. host.print_law x (words k) w h.1;
    close_law = λ x k w h. host.close_law x (words k) w h.1;
    session_law = λ x k w h. host.session_law x (words k) w h.1;
  }

  -- The machine that runs the words of each command.
  abbrev pub by_words : H.Session → Machine H.World
  by_words x k w = host.run x (words_of k) w

  plain-allowed : (ks : List Command) → All IsPlainCommand ks → All ((shell_of words_of).allowed) ks
  plain-allowed ks h =
      All-map IsPlainCommand _ (λ k plain. (line_of-words k plain, host.silent_commands k)) ks h

module _ (C : Crates) (H : Host) (host : WordHost H) (x : H.Session) (c : ScpFs H)
    (open_session : c.session ≡ some x) (rooted : is_absolute c.wrkdir ≡ true) where
  -- For an SCP client with a session and an absolute working directory, on a host whose shell
  -- reads a line in words and runs the program that they name, which prints nothing, while the
  -- session is live: each request to remove, create, link, copy or move on paths without double
  -- quotes, dollars, backticks and backslashes runs the programs of its specification, each path
  -- as one word. The outcome is the one that their exit codes determine, the world is what they
  -- leave, and the client is as it was.
  pub request-words :
      (r : Request C.UnixPex) (w : H.World)
      → All IsPlainCommand (commands_of C.pex_bits c.wrkdir r)
      → H.authenticated x w ≡ true
      → request C H r (record { client = c; world = w }) ≡ (
        (spec (by_words H host x) C.pex_bits c.wrkdir r w).0,
        record { client = c; world = (spec (by_words H host x) C.pex_bits c.wrkdir r w).1 },
      )
  request-words r w plain live =
      request-spec C H (shell_of H host words_of) x c open_session rooted r w
        (plain-allowed H host (commands_of C.pex_bits c.wrkdir r) plain) live

  -- On the same host and for the same paths, where a time is printed as a word without quotes:
  -- `setstat` runs `chmod`, `chown` and two `touch` for what the metadata gives, in this order,
  -- and stops with `StatFailed` at the first that fails. The group goes with the user only. The
  -- client is as it was.
  pub setstat-words :
      (path : Text) (m : Metadata C.UnixPex) (w : H.World)
      → All IsPlainCommand (setstat_commands C.pex_bits (stamp C) c.wrkdir path m)
      → H.authenticated x w ≡ true
      → setstat C H path m (record { client = c; world = w }) ≡ (
        (setstat_spec (by_words H host x) C.pex_bits (stamp C) c.wrkdir path m w).0,
        record {
          client = c;
          world = (setstat_spec (by_words H host x) C.pex_bits (stamp C) c.wrkdir path m w).1;
        },
      )
  setstat-words path m w plain live =
      setstat-setstat_spec C H (shell_of H host words_of) x c open_session rooted path m w
        (plain-allowed H host (setstat_commands C.pex_bits (stamp C) c.wrkdir path m) plain) live
