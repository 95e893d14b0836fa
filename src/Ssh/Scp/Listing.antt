-- ===== src/Ssh/Scp/Listing.antt =====
-- src/ssh/scp.rs, `parse_ls_output`: one line of `ls -l` as a file.
pub mod Modes
pub mod Names
pub mod Columns
pub mod Entries
pub mod Rows
pub mod Below
pub mod Matches
pub mod Panics
use remotefs_rs_ssh.Prelude.{
  ℕ, zero, suc, ◌+◌, ◌-◌, Bool, true, false, ◌||◌, Option, none, some, List, [], ◌∷◌, length,
  get_elem?, ltb, ◌==◌, if◌then◌else◌, unwrap_or, and_then, option_map, is_some,
}
use remotefs_rs_ssh.Text.{Text, codes, text_eq, byte_len, slice_from, slice_to, split_text}
use remotefs_rs_ssh.Text.Number.{parse_u32, parse_u64}
use remotefs_rs_ssh.FilePath.{push, file_name}
use remotefs_rs_ssh.Remotefs.{File, FileType, directory, SystemTime, unix_epoch}
use remotefs_rs_ssh.Crates.{Crates}
use remotefs_rs_ssh.Utils.{parse_lstime}

-- The result of a parse: a file, `Err(())`, or the panic of an `unwrap` or a slice.
pub data Listed (A : Type 0) : Type 0 where
  listed : A → Listed A
  ignored : Listed A
  panicked : Listed A

infixl 5 ◌>>=◌
abbrev pub ◌>>=◌ : {A B : Type 0} → Listed A → (A → Listed B) → Listed B
listed a >>= f = f a
ignored >>= f = ignored
panicked >>= f = panicked

abbrev pub unwrapped : {A : Type 0} → Option A → Listed A
unwrapped none = panicked
unwrapped (some a) = listed a

abbrev pub ls_re : Text
ls_re =
    codes
      "^([\\-ld])([\\-rwxsStT]{9})\\s+(\\d+)\\s+(.+)\\s+(.+)\\s+(\\d+)\\s+(\\w{3}\\s+\\d{1,2}\\s+(?:\\d{1,2}:\\d{1,2}|\\d{4}))\\s+(.+)$"

-- `metadata.get(i).unwrap().as_str()`
abbrev pub group : List (Option Text) → ℕ → Listed Text
group m i = unwrapped (and_then (get_elem? m i) (λ g. g))

-- Whether the entry is a directory, and whether it is a symbolic link; other types are ignored.
unfoldable pub kind_of : Text → Listed (Bool × Bool)
unfolding text_eq
kind_of t =
    if text_eq t (codes "-")
    then listed (false, false)
    else if text_eq t (codes "l")
    then listed (false, true)
    else if text_eq t (codes "d")
    then listed (true, false)
    else ignored

-- 4, 2 and 1 for the first three characters.
abbrev pub weight : ℕ → ℕ
weight zero = 4
weight (suc zero) = 2
weight (suc (suc zero)) = 1
weight _ = 0

unfoldable pub pex_count : ℕ → Text → ℕ
pex_count i [] = 0
pex_count i (c ∷ s) = (if c == b'-' then 0 else weight i) + pex_count (suc i) s

-- The closure `pex`, on the characters from `a` to `b`.
unfoldable pub pex : Text → ℕ → ℕ → Listed ℕ
unfolding slice_from slice_to pex_count
pex perms a b =
    unwrapped (option_map (pex_count 0) (and_then (slice_from a perms) (slice_to (b - a))))

-- Name of the file and the symbolic link (if there is any)
unfoldable pub get_name_and_link : Text → Listed (Text × Option Text)
unfolding split_text
get_name_and_link token =
    let tokens = split_text (codes " -> ") token in
    unwrapped (option_map (λ name. (name, get_elem? tokens 1)) (get_elem? tokens 0))

abbrev pub name_and_link : Bool → Text → Listed (Text × Option Text)
name_and_link true token = get_name_and_link token
name_and_link false token = listed (token, none)

-- The epoch where the time does not parse.
abbrev pub modified_of : Option (Option SystemTime) → Listed SystemTime
modified_of none = listed unix_epoch
modified_of (some t) = unwrapped t

abbrev pub is_dots : Text → Bool
is_dots name = text_eq name (codes ".") || text_eq name (codes "..")

abbrev pub type_of : Bool → Bool → FileType
type_of true is_dir = FileType.symlink
type_of false true = directory
type_of false false = FileType.file

module _ (C : Crates) where
  open C use {UnixPex}

  -- A file below `path`, under the last component of the listed name.
  unfoldable pub entry_at :
      Text
      → Text
      → Bool
      → UnixPex
      → SystemTime
      → Option ℕ
      → Option ℕ
      → ℕ
      → Option Text
      → Listed (File UnixPex)
  unfolding push file_name text_eq
  entry_at path raw is_dir mode modified uid gid size link =
      let name = unwrap_or (file_name raw) raw in
      if is_dots name
      then ignored
      else listed (record {
        path = push path name;
        metadata = record {
          accessed = none;
          created = none;
          file_type = type_of (is_some link) is_dir;
          gid = gid;
          mode = some mode;
          modified = some modified;
          size = size;
          symlink = link;
          uid = uid;
        };
      })

  -- The groups of a match, from the permissions on.
  unfoldable pub parse_fields :
      Text → List (Option Text) → ℕ → Bool × Bool → Text → Listed (File UnixPex)
  unfolding pex get_name_and_link parse_lstime entry_at parse_u32 parse_u64
  parse_fields path m year kind perms = do
    user ← pex perms 0 3
    grp ← pex perms 3 6
    other ← pex perms 6 9
    let mode = C.pex_new (C.class_from user) (C.class_from grp) (C.class_from other)
    date ← group m 7
    modified ← modified_of (parse_lstime C date (codes "%b %d %Y") (codes "%b %d %H:%M") year)
    uid ← group m 4
    gid ← group m 5
    size ← group m 6
    token ← group m 8
    names ← name_and_link kind.1 token
    entry_at path names.0 kind.0 mode modified (parse_u32 uid) (parse_u32 gid)
        (unwrap_or (parse_u64 size) 0) names.1

  unfoldable pub parse_groups : Text → List (Option Text) → ℕ → Listed (File UnixPex)
  unfolding kind_of parse_fields byte_len
  parse_groups path m year = if ltb (length m) 8 then ignored else do
    t ← group m 1
    kind ← kind_of t
    perms ← group m 2
    if ltb (byte_len perms) 9 then ignored else parse_fields path m year kind perms

  abbrev pub parse_match : Text → ℕ → Option (List (Option Text)) → Listed (File UnixPex)
  parse_match path year none = ignored
  parse_match path year (some m) = parse_groups path m year

  -- Parse a line of `ls -l` output and tokenize the output into a file
  unfoldable pub parse_ls_output : Text → Text → ℕ → Listed (File UnixPex)
  unfolding parse_groups
  parse_ls_output path line year = parse_match path year (C.captures ls_re line)

  -- The lines that parse, in order.
  unfoldable pub collect_entries : Text → ℕ → List Text → Listed (List (File UnixPex))
  unfolding parse_ls_output
  collect_entries path year [] = listed []
  collect_entries path year (line ∷ ls) =
      let rest = collect_entries path year ls in
      elim (parse_ls_output path line year) [
        | listed entry ↦ rest >>= λ entries. listed (entry ∷ entries)
        | ignored ↦ rest
        | panicked ↦ panicked
      ]
