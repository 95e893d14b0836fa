-- ===== src/Ssh/Scp/Ops/Stat.antt =====
-- src/ssh/scp.rs, `stat`: one line of `ls -l`, and how the command is chosen.
use remotefs_rs_ssh.Prelude.{ℕ, ◌<◌, ◌^◌, ◌≡◌, true, some, none, Option}
use remotefs_rs_ssh.Text.{Text, codes}
use remotefs_rs_ssh.FilePath.{is_absolute}
use remotefs_rs_ssh.Remotefs.{File, SystemTime, new, no_such_file_or_directory}
use remotefs_rs_ssh.Exec.{Outcome, ok, err}
use remotefs_rs_ssh.Host.{Host}
use remotefs_rs_ssh.Crates.{Crates}
use remotefs_rs_ssh.Utils.{absolutize, parse_lstime}
use remotefs_rs_ssh.Ssh.Scp.Client.{Scp}
use remotefs_rs_ssh.Ssh.Scp.Listing.{listed, ls_re, modified_of}
use remotefs_rs_ssh.Ssh.Scp.Listing.Columns.{Entry, IsOwner, IsPlainLink, columns, file_at}

module _ (C : Crates) (H : Host) where
  -- What the line of an entry tells, whose name is printed as the path that was asked for, or that
  -- the line is none of an entry.
  abbrev pub Tells : Text → ℕ → Text → Option (Entry × SystemTime) → Type 0
  Tells path year line none = C.captures ls_re line ≡ none
  Tells path year line (some (e, t)) =
      (C.captures ls_re line ≡ some (columns line e))
      × (e.name ≡ path)
      × (IsOwner e.user)
      × (IsOwner e.group)
      × (e.size < 2 ^ 64)
      × (IsPlainLink e.kind e.name)
      × (modified_of (parse_lstime C e.date (codes "%b %d %Y") (codes "%b %d %H:%M") year)
          ≡ listed t)

  -- The entry as a file in its directory, or the error.
  abbrev pub told : Text → Text → Option (Entry × SystemTime) → Outcome (File C.UnixPex)
  told dir base none = err (new no_such_file_or_directory)
  told dir base (some (e, t)) = ok (file_at C dir base t e)

  module _ (x : H.Session) (s : Scp H) (there : s.client.session ≡ some x)
      (live : H.authenticated x s.world ≡ true) (rooted : is_absolute s.client.wrkdir ≡ true)
      (path : Text) where
    abbrev target : Text
    target = absolutize s.client.wrkdir path
