-- ===== src/Ssh/Scp/Listing/Rows.antt =====
-- src/ssh/scp.rs, `list_dir`: the lines of a listing, of its entries and others.
use remotefs_rs_ssh.Prelude.{ℕ, ◌<◌, ◌^◌, ◌≡◌, refl, Option, none, some, List, [], ◌∷◌, map, All}
use remotefs_rs_ssh.Text.{Text, codes}
use remotefs_rs_ssh.FilePath.{file_name}
use remotefs_rs_ssh.Remotefs.{File, SystemTime}
use remotefs_rs_ssh.Crates.{Crates}
use remotefs_rs_ssh.Utils.{parse_lstime}
use remotefs_rs_ssh.Ssh.Scp.Listing.{
  listed, ignored, ls_re, modified_of, parse_ls_output, collect_entries,
}
use remotefs_rs_ssh.Ssh.Scp.Listing.Columns.{Entry, IsOwner, IsPlainLink, columns, file_of}
use remotefs_rs_ssh.Ssh.Scp.Listing.Entries.{parse_ls_output-columns}

-- A line of a listing: of an entry with its time, or any other, such as the total.
pub record Row : Type 0 where
  pub line : Text
  pub entry : Option (Entry × SystemTime)

module _ (C : Crates) (path : Text) (year : ℕ) where
  -- The regular expression matches the lines of entries only, with their columns as groups, and these fit.
  abbrev pub Reads : Text → Option (Entry × SystemTime) → Type 0
  Reads line none = C.captures ls_re line ≡ none
  Reads line (some (e, t)) =
      (C.captures ls_re line ≡ some (columns line e))
      × (IsOwner e.user)
      × (IsOwner e.group)
      × (e.size < 2 ^ 64)
      × (file_name e.name ≡ some e.name)
      × (IsPlainLink e.kind e.name)
      × (modified_of (parse_lstime C e.date (codes "%b %d %Y") (codes "%b %d %H:%M") year)
          ≡ listed t)

  abbrev pub IsRow : Row → Type 0
  IsRow r = Reads r.line r.entry

  abbrev pub with_entry :
      Option (Entry × SystemTime) → List (File C.UnixPex) → List (File C.UnixPex)
  with_entry none fs = fs
  with_entry (some (e, t)) fs = file_of C path t e ∷ fs

  -- The entries of the rows as files, in order.
  abbrev pub files_of : List Row → List (File C.UnixPex)
  files_of [] = []
  files_of (r ∷ rs) = with_entry r.entry (files_of rs)

  ignored_line :
      (line : Text) → C.captures ls_re line ≡ none → parse_ls_output C path line year ≡ ignored
  unfolding parse_ls_output
  ignored_line line h = rw h

  -- One line in front of the rest of a listing.
  collect_row :
      (line : Text) (entry : Option (Entry × SystemTime)) (ls : List Text)
      (fs : List (File C.UnixPex))
      → Reads line entry
      → collect_entries C path year ls ≡ listed fs
      → collect_entries C path year (line ∷ ls) ≡ listed (with_entry entry fs)
  unfolding collect_entries
  collect_row line none ls fs h k = rw (collect_entries, ignored_line line h) k
  collect_row line (some (e, t)) ls fs h k =
      rw (
        collect_entries,
        parse_ls_output-columns C path line year e t h.0 h.1 h.2 h.3 h.4 h.5 h.6,
        k,
      )

  -- Where the regular expression matches exactly the lines of entries, with their columns as its
  -- groups, and each entry has an owner and a group without a number or one that fits, a size
  -- below 2 ^ 64, a name that is a plain file name (without an arrow, as its target, where it is a
  -- link), and a date that is read as its time, the whole listing is read as its entries, in
  -- order, and the other lines (such as the total) are left out.
  pub collect_entries-files_of :
      (rows : List Row)
      → All IsRow rows
      → collect_entries C path year (map (λ r. r.line) rows) ≡ listed (files_of rows)
  collect_entries-files_of [] h = unfold collect_entries in refl
  collect_entries-files_of (r ∷ rs) h =
      collect_row r.line r.entry _ _ h.0 (collect_entries-files_of rs h.1)
