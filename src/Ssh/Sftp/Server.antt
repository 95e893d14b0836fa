-- ===== src/Ssh/Sftp/Server.antt =====
-- src/ssh/sftp.rs, abstractly: the files of a server, the messages that may change them, and what
-- an answer to each of them means.
pub mod Effect
pub mod Contract
pub mod Steps
pub mod Sees
pub mod Refines
pub mod Sequences
use remotefs_rs_ssh.Prelude.{ℕ, ◌≡◌, ◌≢◌, ◌⊎◌, Bool, Option, none, some, List, [], ◌∷◌}
use remotefs_rs_ssh.Text.{Text}
use remotefs_rs_ssh.Host.{FileStat, OpenFlag, write, truncate}

pub data Node : Type 0 where
  folder leaf link : Node

-- The requests of the protocol that may change files.
pub data Message : Type 0 where
  unlink rmdir : Text → Message
  mkdir : Text → ℕ → Message
  make_link rename : Text → Text → Message
  set_attributes : Text → FileStat → Message
  open_file : Text → List OpenFlag → ℕ → Message

-- The files of a server at one moment. An entry is a place in a directory, by the directory itself
-- and a name in it; paths lead to entries through links, `.` and `..`. A path may lead to an entry
-- that holds nothing, and several paths to one entry.
pub record View (Entry : Type 0) : Type 0 where
  -- without and with a link that the entry holds being followed
  pub place : Text → Option Entry
  pub target : Text → Option Entry
  pub node : Entry → Option Node
  -- whether `stat` answers for a path, and which requests the server would refuse
  pub shown : Text → Bool
  pub denied : Message → Bool

-- One entry now holds the node, and the others hold what they held.
pub record Only {Entry : Type 0} (e : Entry) (n : Option Node) (before after : View Entry)
    : Type 0 where
  pub changed : after.node e ≡ n
  pub elsewhere : (f : Entry) → f ≢ e → after.node f ≡ before.node f

-- What a rename leaves: the node stands at the new entry only, or at both, where these were two
-- names of one file already and nothing was done.
pub record Renamed {Entry : Type 0} (e f : Entry) (before after : View Entry) : Type 0 where
  pub arrived : after.node f ≡ before.node e
  pub left : e ≢ f → (after.node e ≡ none) ⊎ (after.node ≡ before.node)
  pub elsewhere : (g : Entry) → g ≢ e → g ≢ f → after.node g ≡ before.node g

-- A file or a link.
abbrev pub IsUnlinkable : Option Node → Type 0
IsUnlinkable (some leaf) = Unit
IsUnlinkable (some link) = Unit
IsUnlinkable _ = ⊥

-- What an answer to a message means, from the files before to those after.
module _ {Entry : Type 0} (t u : View Entry) where
  pub record Unlinked (p : Text) : Type 0 where
    pub entry : Entry
    pub at_path : t.place p ≡ some entry
    pub held : IsUnlinkable (t.node entry)
    pub only : Only entry none t u

  pub record DirRemoved (p : Text) : Type 0 where
    pub entry : Entry
    pub at_path : t.place p ≡ some entry
    pub held : t.node entry ≡ some folder
    pub only : Only entry none t u

  -- A new folder or a new link.
  pub record Made (p : Text) (n : Node) : Type 0 where
    pub entry : Entry
    pub at_path : t.place p ≡ some entry
    pub free : t.node entry ≡ none
    pub only : Only entry (some n) t u

  pub record Moved (src dest : Text) : Type 0 where
    pub entry : Entry
    pub new_entry : Entry
    pub from_path : t.place src ≡ some entry
    pub to_path : t.place dest ≡ some new_entry
    pub held : t.node entry ≢ none
    pub renamed : Renamed entry new_entry t u

  -- A file that is open for writing, behind a link at its path too.
  pub record OpenedFile (p : Text) : Type 0 where
    pub entry : Entry
    pub at_path : t.target p ≡ some entry
    pub held : t.node entry ≢ some folder
    pub only : Only entry (some leaf) t u

  abbrev pub SameNodes : Type 0
  SameNodes = (e : Entry) → u.node e ≡ t.node e

abbrev pub append_flags : List OpenFlag
append_flags = OpenFlag.create ∷ OpenFlag.append ∷ write ∷ []

abbrev pub create_flags : List OpenFlag
create_flags = OpenFlag.create ∷ write ∷ truncate ∷ []
