-- ===== src/Ssh/Scp/Listing/Columns.antt =====
-- src/ssh/scp.rs, `parse_ls_output`: what `ls -l` prints of an entry, by its columns.
use remotefs_rs_ssh.Prelude.{
  ℕ, ◌<◌, ◌^◌, ◌≡◌, Bool, true, false, Option, none, some, List, [], ◌∷◌, ◌++◌, map,
}
use remotefs_rs_ssh.Text.{Text, codes}
use remotefs_rs_ssh.Text.Number.{decimal, parse_u32}
use remotefs_rs_ssh.FilePath.{push}
use remotefs_rs_ssh.Remotefs.{File, FileType, directory, file, symlink, SystemTime}
use remotefs_rs_ssh.Crates.{Crates}
use remotefs_rs_ssh.Ssh.Scp.Listing.Modes.{Permissions, show_mode, digit_of}
use remotefs_rs_ssh.Ssh.Scp.Listing.Names.{NoArrow, arrow}

pub data Kind : Type 0 where
  plain folder : Kind
  link : Text → Kind

-- A user or a group, by its number or by its name.
pub data Owner : Type 0 where
  number : ℕ → Owner
  named : Text → Owner

-- What `ls -l` knows of an entry.
pub record Entry : Type 0 where
  pub kind : Kind
  pub user_class : Permissions
  pub group_class : Permissions
  pub other_class : Permissions
  pub links : ℕ
  pub user : Owner
  pub group : Owner
  pub size : ℕ
  pub date : Text
  pub name : Text

abbrev pub kind_char : Kind → Text
kind_char plain = codes "-"
kind_char folder = codes "d"
kind_char (link target) = codes "l"

abbrev pub is_folder : Kind → Bool
is_folder folder = true
is_folder _ = false

abbrev pub is_link : Kind → Bool
is_link (link target) = true
is_link _ = false

abbrev pub show_owner : Owner → Text
show_owner (number n) = decimal n
show_owner (named t) = t

abbrev pub id_of : Owner → Option ℕ
id_of (number n) = some n
id_of (named t) = none

abbrev pub token_of : Kind → Text → Text
token_of (link target) name = name ++ (arrow ++ target)
token_of _ name = name

abbrev pub target_of : Kind → Option Text
target_of (link target) = some target
target_of _ = none

abbrev pub file_type_of : Kind → FileType
file_type_of plain = file
file_type_of folder = directory
file_type_of (link target) = symlink

-- The groups of the line of an entry: the line, then the columns.
abbrev pub columns : Text → Entry → List (Option Text)
columns line e = map some (
    line
    ∷ kind_char e.kind
    ∷ show_mode e.user_class e.group_class e.other_class
    ∷ decimal e.links
    ∷ show_owner e.user
    ∷ show_owner e.group
    ∷ decimal e.size
    ∷ e.date
    ∷ token_of e.kind e.name
    ∷ [])

-- An owner's number fits, and its name is no number.
abbrev pub IsOwner : Owner → Type 0
IsOwner (number n) = n < 2 ^ 32
IsOwner (named t) = parse_u32 t ≡ none

abbrev pub IsPlainLink : Kind → Text → Type 0
IsPlainLink (link target) name = NoArrow name × NoArrow target
IsPlainLink _ name = Unit

module _ (C : Crates) where
  open C use {UnixPex}

  -- The entry as a file below `path`, by a name of its own.
  abbrev pub file_at : Text → Text → SystemTime → Entry → File UnixPex
  file_at path base modified e = record {
    path = push path base;
    metadata = record {
      accessed = none;
      created = none;
      file_type = file_type_of e.kind;
      gid = id_of e.group;
      mode = some (
          C.pex_new (C.class_from (digit_of e.user_class)) (C.class_from (digit_of e.group_class))
            (C.class_from (digit_of e.other_class)));
      modified = some modified;
      size = e.size;
      symlink = target_of e.kind;
      uid = id_of e.user;
    };
  }

  -- The entry as a file below `path`, by the name that is printed.
  abbrev pub file_of : Text → SystemTime → Entry → File UnixPex
  file_of path modified e = file_at path e.name modified e
