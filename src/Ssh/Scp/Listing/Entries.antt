-- ===== src/Ssh/Scp/Listing/Entries.antt =====
-- src/ssh/scp.rs, `parse_ls_output`: the line that `ls -l` prints of an entry, read as that entry.
use remotefs_rs_ssh.Prelude.{
  ℕ, ◌-◌, ◌<◌, ◌^◌, ◌≡◌, refl, false, Option, none, some, List, [], ◌∷◌, reverse, arith, Bool-cases,
  inl, inr,
}
use remotefs_rs_ssh.Text.{Text, codes, split_on}
use remotefs_rs_ssh.Text.Number.{decimal, parse_u32, parse_u64}
use remotefs_rs_ssh.Text.Number.RoundTrip.{parse_uint-decimal}
use remotefs_rs_ssh.FilePath.{
  push, file_name, pieces_back, drop_skipped, is_skipped, normal_name, body_of, slash,
}
use remotefs_rs_ssh.Remotefs.{SystemTime}
use remotefs_rs_ssh.Crates.{Crates}
use remotefs_rs_ssh.Utils.{parse_lstime}
use remotefs_rs_ssh.Ssh.Scp.Listing.{
  listed, ls_re, kind_of, modified_of, is_dots, name_and_link, entry_at, parse_fields, parse_groups,
  parse_ls_output,
}
use remotefs_rs_ssh.Ssh.Scp.Listing.Modes.{pex-show_mode, byte_len-show_mode}
use remotefs_rs_ssh.Ssh.Scp.Listing.Names.{get_name_and_link-arrow}
use remotefs_rs_ssh.Ssh.Scp.Listing.Columns.{
  Kind, plain, folder, link, Owner, number, named, Entry, kind_char, is_folder, is_link, show_owner,
  id_of, token_of, target_of, file_type_of, columns, IsOwner, IsPlainLink, file_at, file_of,
}

owner-id : (o : Owner) → IsOwner o → parse_u32 (show_owner o) ≡ id_of o
unfolding parse_u32
owner-id (number n) h = parse_uint-decimal (2 ^ 32 - 1) n (omega arith)
owner-id (named t) h = h

size-back : (n : ℕ) → n < 2 ^ 64 → parse_u64 (decimal n) ≡ some n
unfolding parse_u64
size-back n h = parse_uint-decimal (2 ^ 64 - 1) n (omega arith)

kind-back : (k : Kind) → kind_of (kind_char k) ≡ listed (is_folder k, is_link k)
unfolding kind_of
kind-back plain = refl
kind-back folder = refl
kind-back (link target) = refl

token-back :
    (k : Kind) (name : Text)
    → IsPlainLink k name
    → name_and_link (is_link k) (token_of k name) ≡ listed (name, target_of k)
token-back plain name h = refl
token-back folder name h = refl
token-back (link target) name h = get_name_and_link-arrow name target h.0 h.1

-- A last component is neither `.` nor `..`.
pub first_kept :
    (ps : List Text) (q : Text) (qs : List Text) → drop_skipped ps ≡ q ∷ qs → is_skipped q ≡ false
unfolding drop_skipped
first_kept [] q qs h = cc
first_kept (p ∷ ps) q qs h = elim (Bool-cases (is_skipped p)) [
  | inl gone ↦ first_kept ps q qs (rw gone at h)
  | inr kept ↦ ground (arith, kept, (rw kept at h))
]

normal_not_dots :
    (ps : List Text) (name : Text)
    → ((q : Text) (qs : List Text) → ps ≡ q ∷ qs → is_skipped q ≡ false)
    → normal_name ps ≡ some name
    → is_dots name ≡ false
normal_not_dots [] name kept h = cc
normal_not_dots (p ∷ ps) name kept h = ground (arith, kept p ps refl, h)

not_dots : (raw name : Text) → file_name raw ≡ some name → is_dots name ≡ false
unfolding file_name pieces_back
not_dots raw name h =
    normal_not_dots (pieces_back raw) name (first_kept (reverse (split_on slash (body_of raw)))) h

module _ (C : Crates) where
  open C use {UnixPex}

  entry-back :
      (path raw name : Text) (k : Kind) (mode : UnixPex) (modified : SystemTime)
      (uid gid : Option ℕ) (size : ℕ)
      → file_name raw ≡ some name
      → entry_at C path raw (is_folder k) mode modified uid gid size (target_of k)
        ≡ listed (record {
          path = push path name;
          metadata = record {
            accessed = none;
            created = none;
            file_type = file_type_of k;
            gid = gid;
            mode = some mode;
            modified = some modified;
            size = size;
            symlink = target_of k;
            uid = uid;
          };
        })
  unfolding entry_at
  entry-back path raw name plain mode modified uid gid size h = rw (h, not_dots raw name h)
  entry-back path raw name folder mode modified uid gid size h = rw (h, not_dots raw name h)
  entry-back path raw name (link t) mode modified uid gid size h = rw (h, not_dots raw name h)

  -- By the last component of what is printed as the name.
  pub parse_ls_output_named :
      (path line base : Text) (year : ℕ) (e : Entry) (modified : SystemTime)
      → C.captures ls_re line ≡ some (columns line e)
      → IsOwner e.user
      → IsOwner e.group
      → e.size < 2 ^ 64
      → file_name e.name ≡ some base
      → IsPlainLink e.kind e.name
      → modified_of (parse_lstime C e.date (codes "%b %d %Y") (codes "%b %d %H:%M") year)
        ≡ listed modified
      → parse_ls_output C path line year ≡ listed (file_at C path base modified e)
  unfolding parse_ls_output parse_groups parse_fields
  parse_ls_output_named path line base year e modified matched user group size name plain_link
        date =
      let modes = pex-show_mode e.user_class e.group_class e.other_class in
      rw
        (
          matched,
          kind-back e.kind,
          byte_len-show_mode e.user_class e.group_class e.other_class,
          modes.0,
          modes.1,
          modes.2,
          date,
          owner-id e.user user,
          owner-id e.group group,
          size-back e.size size,
          token-back e.kind e.name plain_link,
        )
        (entry-back path e.name base e.kind _ modified (id_of e.user) (id_of e.group) e.size name)

  -- Where the regular expression matches the line of an entry with its columns as groups, the line
  -- is parsed to that entry below `path`: type, mode, owners, size, name and target, and the time
  -- that the date is read as. The numbers of the owners are below 2^32 and their names no such
  -- numbers, the size is below 2^64, the name is one component, and `>` stands neither in the name
  -- of a link nor in its target.
  pub parse_ls_output-columns :
      (path line : Text) (year : ℕ) (e : Entry) (modified : SystemTime)
      → C.captures ls_re line ≡ some (columns line e)
      → IsOwner e.user
      → IsOwner e.group
      → e.size < 2 ^ 64
      → file_name e.name ≡ some e.name
      → IsPlainLink e.kind e.name
      → modified_of (parse_lstime C e.date (codes "%b %d %Y") (codes "%b %d %H:%M") year)
        ≡ listed modified
      → parse_ls_output C path line year ≡ listed (file_of C path modified e)
  parse_ls_output-columns path line year e = parse_ls_output_named path line e.name year e
