-- ===== src/Tests/Listing.antt =====
-- Concrete lines for the listing of src/ssh/scp.rs, and a small regular expression engine that knows one shape.
use remotefs_rs_ssh.Prelude.{
  none, if◌then◌else◌, ◌++◌, ◌≡◌, refl, sym, ap, true, false, some, List, [], ◌∷◌, unwrap_or,
  Option, arith,
}
use remotefs_rs_ssh.Text.{text_eq, Text, codes}
use remotefs_rs_ssh.Text.Number.{decimal}
use remotefs_rs_ssh.Remotefs.{since}
use remotefs_rs_ssh.Crates.{Crates}
use remotefs_rs_ssh.Ssh.Scp.Listing.{listed, pex, collect_entries}
use remotefs_rs_ssh.Ssh.Scp.Listing.Modes.{Permissions, show_marked, pex-show_marked}
use remotefs_rs_ssh.Ssh.Scp.Listing.Columns.{Entry, link, number, named, columns}
use remotefs_rs_ssh.Ssh.Scp.Listing.Rows.{Row}
use remotefs_rs_ssh.Ssh.Scp.Listing.Matches.{IsSafe, IsMatch, ListingCrates}
use remotefs_rs_ssh.Ssh.Scp.Listing.Panics.{collect_entries-IsSafe}
use remotefs_rs_ssh.Tests.Script.{plain_crates}

abbrev all_of : Permissions
all_of = record { read = true; write = true; execute = true }

abbrev read_only : Permissions
read_only = record { read = true; write = false; execute = false }

abbrev pub current : Entry
current = record {
  kind = link (codes "v2");
  user_class = all_of;
  group_class = read_only;
  other_class = read_only;
  links = 1;
  user = number 1000;
  group = named (codes "staff");
  size = 2;
  date = codes "Nov 5 2018";
  name = codes "current";
}

-- Each line matches, with the columns of the entry.
abbrev pub one_entry : Crates
one_entry = record plain_crates { captures = λ re line. some (columns line current) }

abbrev pub line : Text
line = codes "lrwxr--r-- 1 1000 staff 2 Nov 5 2018 current -> v2"

columns-IsMatch :
    (l : Text) (m : List (Option Text)) → some (columns l current) ≡ some m → IsMatch m
unfolding decimal
columns-IsMatch l m h = record {
  whole = l;
  type_column = codes "l";
  links = codes "1";
  user = codes "1000";
  owner_group = codes "staff";
  size = codes "2";
  date = codes "Nov 5 2018";
  name = codes "current -> v2";
  user_chars = record {
    first = b'r';
    second = b'w';
    third = b'x';
    first_ascii = refl;
    second_ascii = refl;
    third_ascii = refl;
  };
  group_chars = record {
    first = b'r';
    second = b'-';
    third = b'-';
    first_ascii = refl;
    second_ascii = refl;
    third_ascii = refl;
  };
  other_chars = record {
    first = b'r';
    second = b'-';
    third = b'-';
    first_ascii = refl;
    second_ascii = refl;
    third_ascii = refl;
  };
  groups = ap (λ o. unwrap_or o []) (sym h);
}

abbrev one_entry_law : ListingCrates one_entry
one_entry_law = record { match_law = λ l m h. columns-IsMatch l m h; midnight = λ d. refl }

collect_entries-IsSafe_example :
    IsSafe (collect_entries one_entry (codes "/srv") 2026 (line ∷ line ∷ []))
collect_entries-IsSafe_example =
    collect_entries-IsSafe one_entry one_entry_law (codes "/srv") 2026 (line ∷ line ∷ [])

pex-show_marked_example : pex (show_marked read_only b'S' ++ codes "r--r--") 0 3 ≡ listed 5
pex-show_marked_example = pex-show_marked read_only b'S' (codes "r--r--") refl (ground arith)

-- The line of a total has no columns.
abbrev pub knows_total : Crates
knows_total = record plain_crates {
  captures = λ re l. if text_eq l (codes "total 4") then none else some (columns l current);
}

abbrev pub rows : List Row
rows =
    record { line = codes "total 4"; entry = none }
    ∷ record { line = line; entry = some (current, since 1000 0) }
    ∷ []
