-- ===== src/Ssh/Scp/Listing/Panics.antt =====
-- src/ssh/scp.rs, the entries of a listing, and the panics of the parser.
use remotefs_rs_ssh.Prelude.{
  ℕ, ◌≡◌, refl, Bool, Option, none, some, List, [], ◌∷◌, map, ltb, unwrap_or,
}
use remotefs_rs_ssh.Text.{Text, codes, byte_len}
use remotefs_rs_ssh.Text.Number.{parse_u32, parse_u64}
use remotefs_rs_ssh.FilePath.{file_name}
use remotefs_rs_ssh.Remotefs.{File, SystemTime}
use remotefs_rs_ssh.Crates.{Crates}
use remotefs_rs_ssh.Utils.{parse_lstime}
use remotefs_rs_ssh.Ssh.Scp.Listing.{
  Listed, listed, ignored, panicked, ◌>>=◌, ls_re, kind_of, pex, modified_of, is_dots,
  name_and_link, entry_at, parse_fields, parse_groups, parse_match, parse_ls_output,
  collect_entries,
}
use remotefs_rs_ssh.Ssh.Scp.Listing.Matches.{
  IsSafe, bind-IsSafe, IsMatch, ListingCrates, perms_of, user-IsSafe, group-IsSafe, other-IsSafe,
  name_and_link-IsSafe, modified-IsSafe, if-ignored-IsSafe, kind_of-IsSafe, cons-IsSafe,
}

module _ (C : Crates) (crates : ListingCrates C) (path : Text) (year : ℕ) where
  entry_at-IsSafe :
      (raw : Text) (d : Bool) (mode : C.UnixPex) (t : SystemTime) (u g : Option ℕ) (size : ℕ)
      (l : Option Text)
      → IsSafe (entry_at C path raw d mode t u g size l)
  unfolding entry_at
  entry_at-IsSafe raw d mode t u g size l =
      if-ignored-IsSafe (is_dots (unwrap_or (file_name raw) raw)) _ tt

  abbrev columns_of : {m : List (Option Text)} → IsMatch m → List (Option Text)
  columns_of h = map some (
      h.whole
      ∷ h.type_column
      ∷ perms_of h
      ∷ h.links
      ∷ h.user
      ∷ h.owner_group
      ∷ h.size
      ∷ h.date
      ∷ h.name
      ∷ [])

  parse_fields-IsSafe :
      {m : List (Option Text)} (h : IsMatch m) (kind : Bool × Bool)
      → IsSafe (parse_fields C path (columns_of h) year kind (perms_of h))
  unfolding parse_fields
  parse_fields-IsSafe h kind = bind-IsSafe (pex (perms_of h) 0 3) _ (user-IsSafe h) (λ user.
      bind-IsSafe (pex (perms_of h) 3 6) _ (group-IsSafe h) (λ grp.
        bind-IsSafe (pex (perms_of h) 6 9) _ (other-IsSafe h) (λ other.
          bind-IsSafe
            (modified_of (parse_lstime C h.date (codes "%b %d %Y") (codes "%b %d %H:%M") year)) _
            (modified-IsSafe C crates h.date year)
            (λ modified.
              bind-IsSafe (name_and_link kind.1 h.name) _ (name_and_link-IsSafe kind.1 h.name)
                (λ names.
                  entry_at-IsSafe names.0 kind.0
                    (C.pex_new (C.class_from user) (C.class_from grp) (C.class_from other)) modified
                    (parse_u32 h.user) (parse_u32 h.owner_group) (unwrap_or (parse_u64 h.size) 0)
                    names.1)))))

  parse_groups-IsSafe : (m : List (Option Text)) → IsMatch m → IsSafe (parse_groups C path m year)
  unfolding parse_groups
  parse_groups-IsSafe m h = rw h.groups (
      bind-IsSafe (kind_of h.type_column) _ (kind_of-IsSafe h.type_column)
        (λ kind. if-ignored-IsSafe (ltb (byte_len (perms_of h)) 9) _ (parse_fields-IsSafe h kind)))

  parse_match-IsSafe :
      (o : Option (List (Option Text)))
      → ((m : List (Option Text)) → o ≡ some m → IsMatch m)
      → IsSafe (parse_match C path year o)
  parse_match-IsSafe none h = tt
  parse_match-IsSafe (some m) h = parse_groups-IsSafe m (h m refl)

  parse_ls_output-IsSafe : (line : Text) → IsSafe (parse_ls_output C path line year)
  unfolding parse_ls_output
  parse_ls_output-IsSafe line = parse_match-IsSafe (C.captures ls_re line) (crates.match_law line)

  -- No line that the remote machine prints makes the parser of a listing panic, given what the
  -- regular expression promises of a match and that each day has a midnight.
  pub collect_entries-IsSafe : (ls : List Text) → IsSafe (collect_entries C path year ls)
  unfolding collect_entries
  collect_entries-IsSafe [] = tt
  collect_entries-IsSafe (line ∷ ls) =
      go (parse_ls_output C path line year) (parse_ls_output-IsSafe line)
        (collect_entries C path year ls) (collect_entries-IsSafe ls)
    where
      go :
          (r : Listed (File C.UnixPex))
          → IsSafe r
          → (rest : Listed (List (File C.UnixPex))) → IsSafe rest
          → IsSafe (elim r [
            | listed entry ↦ rest >>= λ entries. listed (entry ∷ entries)
            | ignored ↦ rest
            | panicked ↦ panicked
          ])
      go (listed f) h rest k = cons-IsSafe f rest k
      go ignored h rest k = k
      go panicked h rest k = h
