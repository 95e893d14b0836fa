-- ===== src/Ssh/Scp/Listing/Matches.antt =====
-- src/ssh/scp.rs, `parse_ls_output`: the groups of a match, and the parts of the parser that unwrap.
use remotefs_rs_ssh.Prelude.{
  ℕ, ◌+◌, ◌≡◌, refl, ◌∙◌, Bool, true, false, Option, none, some, List, [], ◌∷◌, ◌++◌, map, ltb,
  if◌then◌else◌, arith, Bool-cases, inl, inr, is_some, get_elem?, option_map, zero, suc,
}
use remotefs_rs_ssh.Text.{
  Text, codes, byte_len, utf8_len, starts_with, split_skip, split_text, first_piece,
}
use remotefs_rs_ssh.Crates.{Crates}
use remotefs_rs_ssh.Utils.{parse_lstime, epoch_plus, as_u64}
use remotefs_rs_ssh.Ssh.Scp.Listing.{
  Listed, listed, ignored, panicked, ◌>>=◌, unwrapped, ls_re, kind_of, pex, modified_of,
  name_and_link, get_name_and_link,
}
use remotefs_rs_ssh.Ssh.Scp.Listing.Modes.{pex-slice}
use remotefs_rs_ssh.Text.Slice.{byte_len-append}

-- Any result but the panic.
abbrev pub IsSafe : {A : Type 0} → Listed A → Type 0
IsSafe (listed a) = Unit
IsSafe ignored = Unit
IsSafe panicked = ⊥

pub bind-IsSafe :
    {A B : Type 0} (m : Listed A) (f : A → Listed B)
    → IsSafe m
    → ((a : A) → IsSafe (f a))
    → IsSafe (m >>= f)
bind-IsSafe (listed a) f s h = h a
bind-IsSafe ignored f s h = tt
bind-IsSafe panicked f s h = s

-- Three ASCII characters.
pub record Ascii3 : Type 0 where
  pub first : ℕ
  pub second : ℕ
  pub third : ℕ
  pub first_ascii : ltb first 0x80 ≡ true
  pub second_ascii : ltb second 0x80 ≡ true
  pub third_ascii : ltb third 0x80 ≡ true

abbrev pub chars : Ascii3 → Text
chars c = c.first ∷ c.second ∷ c.third ∷ []

pub byte_len-chars : (c : Ascii3) → byte_len (chars c) ≡ 3
unfolding byte_len utf8_len
byte_len-chars c = rw (c.first_ascii, c.second_ascii, c.third_ascii) refl

-- What the regular expression promises of a match, by its groups: the line and eight columns, of which
-- the second has nine ASCII characters.
pub record IsMatch (m : List (Option Text)) : Type 0 where
  pub whole : Text
  pub type_column : Text
  pub links : Text
  pub user : Text
  pub owner_group : Text
  pub size : Text
  pub date : Text
  pub name : Text
  pub user_chars : Ascii3
  pub group_chars : Ascii3
  pub other_chars : Ascii3
  pub groups :
      m
      ≡ map some (
          whole
          ∷ type_column
          ∷ (chars user_chars ++ (chars group_chars ++ chars other_chars))
          ∷ links
          ∷ user
          ∷ owner_group
          ∷ size
          ∷ date
          ∷ name
          ∷ [])

-- The crates as the code relies on them: the groups of a match, and that each day has a midnight.
pub record ListingCrates (C : Crates) : Type 0 where
  pub match_law :
      (line : Text) (m : List (Option Text)) → C.captures ls_re line ≡ some m → IsMatch m
  pub midnight : (d : C.NaiveDate) → is_some (C.and_hms_opt d 0 0 0) ≡ true

pub pex-IsSafe :
    (front back : Text) (c : Ascii3) (a b : ℕ)
    → byte_len front ≡ a
    → b ≡ a + 3
    → IsSafe (pex (front ++ (chars c ++ back)) a b)
pex-IsSafe front back c a b at_front at_end =
    rw (pex-slice front (chars c) back a b at_front (byte_len-chars c ∙ omega (arith, at_end))) tt

pub first_piece-first : (c : ℕ) (ps : List Text) → is_some (get_elem? (first_piece c ps) 0) ≡ true
first_piece-first c [] = refl
first_piece-first c (p ∷ ps) = refl

pub split_skip-first :
    (pat : Text) (skip : ℕ) (s : Text) → is_some (get_elem? (split_skip pat skip s) 0) ≡ true
unfolding split_skip
split_skip-first pat zero [] = refl
split_skip-first pat (suc skip) [] = refl
split_skip-first pat (suc skip) (c ∷ s) = split_skip-first pat skip s
split_skip-first pat zero (c ∷ s) = elim (Bool-cases (starts_with (c ∷ s) pat)) [
  | inl found ↦ rw found
  | inr not_found ↦ rw not_found (first_piece-first c (split_skip pat 0 s))
]

pub unwrapped-IsSafe : {A : Type 0} (o : Option A) → is_some o ≡ true → IsSafe (unwrapped o)
unwrapped-IsSafe none h = ground (arith, h)
unwrapped-IsSafe (some a) h = tt

pub option_map-is_some :
    {A B : Type 0} (f : A → B) (o : Option A) → is_some (option_map f o) ≡ is_some o
option_map-is_some f none = refl
option_map-is_some f (some a) = refl

abbrev pub perms_of : {m : List (Option Text)} → IsMatch m → Text
perms_of h = chars h.user_chars ++ (chars h.group_chars ++ chars h.other_chars)

pub user-IsSafe : {m : List (Option Text)} (h : IsMatch m) → IsSafe (pex (perms_of h) 0 3)
user-IsSafe h =
    pex-IsSafe [] (chars h.group_chars ++ chars h.other_chars) h.user_chars 0 3
      (unfold byte_len in refl) refl

pub group-IsSafe : {m : List (Option Text)} (h : IsMatch m) → IsSafe (pex (perms_of h) 3 6)
group-IsSafe h =
    pex-IsSafe (chars h.user_chars) (chars h.other_chars) h.group_chars 3 6
      (byte_len-chars h.user_chars) refl

pub other-IsSafe : {m : List (Option Text)} (h : IsMatch m) → IsSafe (pex (perms_of h) 6 9)
other-IsSafe h =
    pex-IsSafe (chars h.user_chars ++ chars h.group_chars) [] h.other_chars 6 9
      (byte_len-append (chars h.user_chars) (chars h.group_chars)
        ∙ rw (byte_len-chars h.user_chars, byte_len-chars h.group_chars) refl)
      refl

pub get_name_and_link-IsSafe : (t : Text) → IsSafe (get_name_and_link t)
unfolding get_name_and_link split_text
get_name_and_link-IsSafe t = unwrapped-IsSafe _ (
    option_map-is_some (λ name. (name, get_elem? (split_skip (codes " -> ") 0 t) 1))
      (get_elem? (split_skip (codes " -> ") 0 t) 0)
    ∙ split_skip-first (codes " -> ") 0 t)

pub name_and_link-IsSafe : (b : Bool) (t : Text) → IsSafe (name_and_link b t)
name_and_link-IsSafe true t = get_name_and_link-IsSafe t
name_and_link-IsSafe false t = tt

pub modified-IsSafe :
    (C : Crates) (crates : ListingCrates C) (date : Text) (year : ℕ)
    → IsSafe (modified_of (parse_lstime C date (codes "%b %d %Y") (codes "%b %d %H:%M") year))
unfolding parse_lstime
modified-IsSafe C crates date year =
    go (C.parse_date date (codes "%b %d %Y")) (C.parse_date_time _ _)
  where
    go :
        (d : Option C.NaiveDate) (t : Option C.NaiveDateTime)
        → IsSafe (
            modified_of (
              option_map (option_map (λ d. epoch_plus (as_u64 (C.timestamp d)))) (elim d [
                | some date ↦ some (C.and_hms_opt date 0 0 0)
                | none ↦ option_map some t
              ])))
    go (some d) t =
        unwrapped-IsSafe _ (option_map-is_some _ (C.and_hms_opt d 0 0 0) ∙ crates.midnight d)
    go none none = tt
    go none (some t) = tt

pub if-ignored-IsSafe :
    {A : Type 0} (b : Bool) (r : Listed A) → IsSafe r → IsSafe (if b then ignored else r)
if-ignored-IsSafe true r h = tt
if-ignored-IsSafe false r h = h

pub kind_of-IsSafe : (t : Text) → IsSafe (kind_of t)
unfolding kind_of
kind_of-IsSafe t = ground arith

pub cons-IsSafe :
    {A : Type 0} (x : A) (r : Listed (List A)) → IsSafe r → IsSafe (r >>= λ xs. listed (x ∷ xs))
cons-IsSafe x (listed xs) h = tt
cons-IsSafe x ignored h = tt
cons-IsSafe x panicked h = h
