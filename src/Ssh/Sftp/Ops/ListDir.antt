-- ===== src/Ssh/Sftp/Ops/ListDir.antt =====
-- src/ssh/sftp.rs, `list_dir`: the entries of a directory, from what the server says of each name.
use remotefs_rs_ssh.Prelude.{
  ◌%◌, option_map, ◌≡◌, true, false, Option, none, some, is_some, unwrap_or, List, [], ◌∷◌,
}
use remotefs_rs_ssh.Text.{Text}
use remotefs_rs_ssh.Remotefs.{File}
use remotefs_rs_ssh.Exec.{Outcome, ok}
use remotefs_rs_ssh.Host.{Host, FileStat, answer, failure}
use remotefs_rs_ssh.Crates.{Crates}
use remotefs_rs_ssh.Ssh.Sftp.Client.{SftpState}
use remotefs_rs_ssh.Ssh.Sftp.Entry.{type_of, fsentry, make_fsentry, metadata_to_filestat}
use remotefs_rs_ssh.Ssh.Sftp.Entry.Attributes.{IsTime}

module _ (C : Crates) (H : Host) where
  -- The target of a name: none if it is no link, or what `readlink` answered in some world, or none
  -- where it failed.
  pub data LinkOf (x : H.Sftp) (path : Text) (st : FileStat) : Option Text → Type 0 where
    no_link : H.stat_is_symlink st ≡ false → LinkOf x path st none
    target :
        (t : Text) (w : H.World)
        → H.stat_is_symlink st ≡ true
        → (H.sftp_readlink x path w).0 ≡ answer t
        → LinkOf x path st (some t)
    broken :
        (e : Text) (w : H.World)
        → H.stat_is_symlink st ≡ true
        → (H.sftp_readlink x path w).0 ≡ failure e
        → LinkOf x path st none

  -- The file under the name that the server gave, with its attributes, by which it is written back as
  -- it was read, but for a missing size and the bits of the mode above nine. It is a link if it has a target, and else a directory or a
  -- file as the server says.
  pub record Describes (x : H.Sftp) (path : Text) (st : FileStat) (f : File C.UnixPex)
      : Type 0 where
    pub named : f.path ≡ path
    pub attributes :
        metadata_to_filestat C f.metadata
        ≡ record st { size = some (unwrap_or st.size 0); perm = option_map (λ n. n % 512) st.perm }
    pub kind : f.metadata.file_type ≡ type_of (is_some f.metadata.symlink) (H.stat_is_dir st)
    pub link : LinkOf x path st f.metadata.symlink

  -- One file for each name, in order.
  abbrev pub Described : H.Sftp → List (Text × FileStat) → List (File C.UnixPex) → Type 0
  Described x [] [] = Unit
  Described x [] (f ∷ fs) = ⊥
  Described x (e ∷ es) [] = ⊥
  Described x (e ∷ es) (f ∷ fs) = Describes x e.0 e.1 f × Described x es fs

  -- The result is `Ok`, of these files.
  pub record Lists (x : H.Sftp) (files : List (Text × FileStat))
      (o : Outcome (List (File C.UnixPex))) : Type 0 where
    pub entries : List (File C.UnixPex)
    pub returned : o ≡ ok entries
    pub described : Described x files entries

  abbrev pub HasTimes : Text × FileStat → Type 0
  HasTimes e = IsTime e.1.atime × IsTime e.1.mtime

  -- An entry is made of what `readlink` told.
  record Made (x : H.Sftp) (path : Text) (st : FileStat) (s : SftpState H) : Type 0 where
    link : Option Text
    after : H.World
    made : make_fsentry C H path st s ≡ (ok (fsentry C H path st link), record s { world = after })
    link_of : LinkOf x path st link
