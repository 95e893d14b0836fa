-- ===== src/Ssh/Scp/Shell.antt =====
-- src/ssh/scp.rs, abstractly: the shell commands that the operations send, and a machine that runs
-- them.
pub mod Refines
pub mod Attributes
pub mod Words
pub mod Lines
pub mod Posix
pub mod Injected
use remotefs_rs_ssh.Prelude.{
  ℕ, ◌<◌, ◌^◌, ◌≡◌, Bool, true, false, Option, none, some, option_map, ◌++◌, ◌∷◌, [], List, ◌==◌,
  if◌then◌else◌,
}
use remotefs_rs_ssh.Text.{quoted, Text, codes, newline}
use remotefs_rs_ssh.Text.Number.{decimal, octal}
use remotefs_rs_ssh.Utils.{absolutize}
use remotefs_rs_ssh.Remotefs.{
  RemoteError, new, new_ex, no_such_file_or_directory, could_not_remove_file, directory_not_empty,
  directory_already_exists, file_create_denied, stat_failed, Metadata, SystemTime,
}
use remotefs_rs_ssh.Exec.{Outcome, ok, err}
use remotefs_rs_ssh.Host.{Host, answer}
use remotefs_rs_ssh.Ssh.Scp.Client.{}

-- The commands by what they ask of the remote machine. They print nothing.
pub data Command : Type 0 where
  test_exists rm rmdir rm_recursive : Text → Command
  mkdir : ℕ → Text → Command
  link cp mv : Text → Text → Command
  chmod : ℕ → Text → Command
  chown : ℕ → Option ℕ → Text → Command
  touch_accessed touch_modified : Text → Text → Command

abbrev pub group_part : Option ℕ → Text
group_part none = []
group_part (some gid) = codes ":" ++ decimal gid

-- The line of a command.
abbrev pub line_of : Command → Text
line_of (test_exists p) = codes "test -e " ++ quoted p
line_of (rm p) = codes "rm -f " ++ quoted p
line_of (rmdir p) = codes "rmdir " ++ quoted p
line_of (rm_recursive p) = codes "rm -rf " ++ quoted p
line_of (mkdir mode p) = codes "mkdir -m " ++ (octal mode ++ (codes " " ++ quoted p))
line_of (link target p) = codes "ln -s " ++ (quoted target ++ (codes " " ++ quoted p))
line_of (cp src dest) = codes "cp -rf " ++ (quoted src ++ (codes " " ++ quoted dest))
line_of (chmod mode p) = codes "chmod " ++ (octal mode ++ (codes " " ++ quoted p))
line_of (chown uid gid p) =
    codes "chown " ++ (decimal uid ++ (group_part gid ++ (codes " " ++ quoted p)))
line_of (touch_accessed stamp p) =
    codes "touch " ++ (codes "-a" ++ (codes " -t " ++ (stamp ++ (codes " " ++ quoted p))))
line_of (touch_modified stamp p) =
    codes "touch " ++ (codes "-m" ++ (codes " -t " ++ (stamp ++ (codes " " ++ quoted p))))
line_of (mv src dest) = codes "mv -f " ++ (quoted src ++ (codes " " ++ quoted dest))

-- A machine runs a command: its exit code, and what is left of the world.
abbrev pub Machine : Type 0 → Type 0
Machine World = Command → World → ℕ × World

-- The changes of the remote file system that SCP makes by commands.
pub data Request (Mode : Type 0) : Type 0 where
  remove_file remove_dir remove_dir_all : Text → Request Mode
  create_dir : Text → Mode → Request Mode
  symlink copy mov : Text → Text → Request Mode

module _ {World : Type 0} (machine : Machine World) where
  abbrev pub Spec : Type 0
  Spec = World → Outcome (Unit {0}) × World

  -- Go on where the path exists, or where it does not, and fail otherwise.
  abbrev pub only_if : Bool → Text → RemoteError → Spec → Spec
  only_if present p e next w =
      let r = machine (test_exists p) w in
      if r.0 == 0
      then (if present then next r.1 else (err e, r.1))
      else (if present then (err e, r.1) else next r.1)

  -- The command decides the outcome.
  abbrev pub finish : Command → RemoteError → Spec
  finish c e w = let r = machine c w in (if r.0 == 0 then (ok tt) else (err e), r.1)

  -- A command that may be left out; its failure ends the whole.
  abbrev pub chain : Option Command → RemoteError → Spec → Spec
  chain none e next w = next w
  chain (some c) e next w = let r = machine c w in if r.0 == 0 then next r.1 else (err e, r.1)

  abbrev pub done : Spec
  done w = (ok tt, w)

  -- What `setstat` does: the mode, the owner with the group, and the two times, each where it is given.
  abbrev pub setstat_spec :
      {Mode : Type 0} → (Mode → ℕ) → (SystemTime → Text) → Text → Text → Metadata Mode → Spec
  setstat_spec bits stamp dir path m =
      let p = absolutize dir path in
      only_if true p (new no_such_file_or_directory) (
        chain (option_map (λ mode. chmod (bits mode) p) m.mode) (new stat_failed) (
          chain (option_map (λ uid. chown uid m.gid p) m.uid) (new stat_failed) (
            chain (option_map (λ t. touch_accessed (stamp t) p) m.accessed) (new stat_failed) (
              chain (option_map (λ t. touch_modified (stamp t) p) m.modified) (new stat_failed)
                done))))

  -- What the requests do, from a working directory.
  abbrev pub spec : {Mode : Type 0} → (Mode → ℕ) → Text → Request Mode → Spec
  spec bits dir (remove_file path) =
      let p = absolutize dir path in
      only_if true p (new no_such_file_or_directory) (finish (rm p) (new could_not_remove_file))
  spec bits dir (remove_dir path) =
      let p = absolutize dir path in
      only_if true p (new no_such_file_or_directory) (finish (rmdir p) (new directory_not_empty))
  spec bits dir (remove_dir_all path) =
      let p = absolutize dir path in
      only_if true p (new no_such_file_or_directory)
        (finish (rm_recursive p) (new could_not_remove_file))
  spec bits dir (create_dir path mode) =
      let p = absolutize dir path in
      only_if false p (new directory_already_exists)
        (finish (mkdir (bits mode) p) (new file_create_denied))
  spec bits dir (symlink path target) =
      let p = absolutize dir path in
      only_if true (absolutize dir target) (new no_such_file_or_directory)
        (only_if false p (new file_create_denied) (finish (link target p) (new file_create_denied)))
  spec bits dir (copy src dest) =
      let p = absolutize dir src in
      let q = absolutize dir dest in
      only_if true p (new no_such_file_or_directory)
        (finish (cp p q) (new_ex file_create_denied (quoted q)))
  spec bits dir (mov src dest) =
      let p = absolutize dir src in
      let q = absolutize dir dest in
      only_if true p (new no_such_file_or_directory)
        (finish (mv p q) (new_ex file_create_denied (quoted q)))

-- The commands of a request, from a working directory.
abbrev pub commands_of : {Mode : Type 0} → (Mode → ℕ) → Text → Request Mode → List Command
commands_of bits dir (remove_file path) = let p = absolutize dir path in test_exists p ∷ rm p ∷ []
commands_of bits dir (remove_dir path) = let p = absolutize dir path in test_exists p ∷ rmdir p ∷ []
commands_of bits dir (remove_dir_all path) =
    let p = absolutize dir path in test_exists p ∷ rm_recursive p ∷ []
commands_of bits dir (create_dir path mode) =
    let p = absolutize dir path in test_exists p ∷ mkdir (bits mode) p ∷ []
commands_of bits dir (symlink path target) =
    let p = absolutize dir path in
    test_exists (absolutize dir target) ∷ test_exists p ∷ link target p ∷ []
commands_of bits dir (copy src dest) =
    let p = absolutize dir src in test_exists p ∷ cp p (absolutize dir dest) ∷ []
commands_of bits dir (mov src dest) =
    let p = absolutize dir src in test_exists p ∷ mv p (absolutize dir dest) ∷ []

-- The commands of `setstat`, each where it is given.
abbrev pub if_given : Option Command → List Command → List Command
if_given none rest = rest
if_given (some c) rest = c ∷ rest

abbrev pub setstat_commands :
    {Mode : Type 0} → (Mode → ℕ) → (SystemTime → Text) → Text → Text → Metadata Mode → List Command
setstat_commands bits stamp dir path m =
    let p = absolutize dir path in
    test_exists p
    ∷ if_given (option_map (λ mode. chmod (bits mode) p) m.mode) (
        if_given (option_map (λ uid. chown uid m.gid p) m.uid) (
          if_given (option_map (λ t. touch_accessed (stamp t) p) m.accessed)
            (if_given (option_map (λ t. touch_modified (stamp t) p) m.modified) [])))

-- A host whose shell is a machine for the allowed commands: on any session a channel opens, the line
-- of such a command and `echo $?` behind it print the exit code of the command and a newline, and the
-- session stays as it was.
pub record ShellHost (H : Host) : Type 1 where
  pub allowed : Command → Type 0
  pub machine : H.Session → Machine H.World
  pub channel : H.Session → H.World → H.Channel
  pub opened : H.Session → H.World → H.World
  pub started : H.Session → Command → H.World → H.World
  pub printed : H.Session → Command → H.World → H.World
  pub exit_code :
      (x : H.Session) (c : Command) (w : H.World) → allowed c → (machine x c w).0 < 2 ^ 32
  pub open_law :
      (x : H.Session) (w : H.World) → H.channel_session x w ≡ (answer (channel x w), opened x w)
  pub exec_law :
      (x : H.Session) (c : Command) (w : H.World)
      → allowed c
      → H.channel_exec (channel x w) (line_of c ++ codes "; echo $?") (opened x w)
        ≡ (answer tt, started x c w)
  pub print_law :
      (x : H.Session) (c : Command) (w : H.World)
      → allowed c
      → H.read_to_string (channel x w) (started x c w)
        ≡ (answer (decimal (machine x c w).0 ++ newline ∷ []), printed x c w)
  pub close_law :
      (x : H.Session) (c : Command) (w : H.World)
      → allowed c
      → H.wait_close (channel x w) (printed x c w) ≡ (machine x c w).1
  pub session_law :
      (x : H.Session) (c : Command) (w : H.World)
      → allowed c
      → H.authenticated x (machine x c w).1 ≡ H.authenticated x w
