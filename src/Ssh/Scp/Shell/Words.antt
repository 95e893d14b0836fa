-- ===== src/Ssh/Scp/Shell/Words.antt =====
-- How a POSIX shell reads the lines of src/ssh/scp.rs: one simple command up to a `;`, in words that
-- are bare or between double quotes. Where another construct of the shell begins, there is no reading.
use remotefs_rs_ssh.Prelude.{
  ℕ, ◌≡◌, refl, Bool, true, ◌||◌, ◌&&◌, not, Option, none, some, List, [], ◌∷◌, ◌++◌, All,
  option_map, arith, leb, ◌==◌, if◌then◌else◌,
}
use remotefs_rs_ssh.Text.{Text}
use remotefs_rs_ssh.Text.Number.{is_digit}

-- Between words, in a word, or between the quotes of a word.
pub data Place : Type 0 where
  between bare inside : Place

-- What a character does at a place.
pub data Act : Type 0 where
  refuse stop skip close : Act
  quote_in quote_out take_in : Act

-- Letters, digits and `-`, `.`, `/`, `:`, `_`.
abbrev pub is_bare : ℕ → Bool
is_bare c =
    is_digit c
    || (leb 65 c && leb c 90)
    || (leb 97 c && leb c 122)
    || (leb 45 c && leb c 47)
    || c == 58
    || c == 95

-- `"`, `$`, a backtick and `\` are not literal between double quotes.
abbrev pub is_literal : ℕ → Bool
is_literal c = not (c == 34 || c == 36 || c == 96 || c == 92)

abbrev pub act : Place → ℕ → Act
act inside c = if c == 34 then quote_out else if is_literal c then take_in else refuse
act between c =
    if c == 32
    then skip
    else if c == 59
    then stop
    else if c == 34
    then quote_in
    else if is_bare c
    then take_in
    else refuse
act bare c =
    if c == 32
    then close
    else if c == 59
    then stop
    else if c == 34
    then quote_in
    else if is_bare c
    then take_in
    else refuse

abbrev pub after : Place → Act → Place
after inside take_in = inside
after p quote_in = inside
after p take_in = bare
after p quote_out = bare
after p _ = between

-- The words, and the text behind them.
abbrev pub Reading : Type 0
Reading = Option (List Text × Text)

-- The words that end with the text, at a place.
abbrev pub at_end : Place → Text → Reading
at_end between rest = some ([], rest)
at_end bare rest = some ([] ∷ [], rest)
at_end inside rest = none

abbrev pub push_char : ℕ → List Text × Text → List Text × Text
push_char c ([], rest) = ((c ∷ []) ∷ [], rest)
push_char c (w ∷ words, rest) = ((c ∷ w) ∷ words, rest)

abbrev pub new_word : List Text × Text → List Text × Text
new_word (words, rest) = ([] ∷ words, rest)

abbrev pub read_by : Act → Place → ℕ → Text → Reading → Reading
read_by refuse p c s r = none
read_by stop p c s r = at_end p s
read_by skip p c s r = r
read_by close p c s r = option_map new_word r
read_by quote_in p c s r = r
read_by quote_out p c s r = r
read_by take_in p c s r = option_map (push_char c) r

unfoldable pub read : Place → Text → Reading
read p [] = at_end p []
read p (c ∷ s) = let r = read (after p (act p c)) s in read_by (act p c) p c s r

-- The words of a line, and what stands behind its first `;`.
abbrev pub read_words : Text → Reading
read_words line = read between line

-- Text that stands for itself between double quotes, and outside of them.
abbrev pub IsPlain : Text → Type 0
IsPlain = All (λ c. is_literal c ≡ true)

abbrev pub IsBare : Text → Type 0
IsBare = All (λ c. is_bare c ≡ true)

-- The characters are put in front of the first word.
abbrev pub push_all : Text → Reading → Reading
push_all [] r = r
push_all (c ∷ s) r = option_map (push_char c) (push_all s r)

pub push_all-word :
    (u w : Text) (words : List Text) (rest : Text)
    → push_all u (some (w ∷ words, rest)) ≡ some ((u ++ w) ∷ words, rest)
push_all-word [] w words rest = refl
push_all-word (c ∷ u) w words rest = rw (push_all-word u w words rest)

literal_inside : (c : ℕ) → is_literal c ≡ true → act inside c ≡ take_in
literal_inside c h = ground arith

bare_taken : (c : ℕ) → is_bare c ≡ true → act bare c ≡ take_in
bare_taken c h = ground arith

bare_begun : (c : ℕ) → is_bare c ≡ true → act between c ≡ take_in
bare_begun c h = ground arith

pub read_inside : (p s : Text) → IsPlain p → read inside (p ++ 34 ∷ s) ≡ push_all p (read bare s)
unfolding read
read_inside [] s h = refl
read_inside (c ∷ p) s h = rw (literal_inside c h.0, read_inside p s h.1)

pub read_bare : (u s : Text) → IsBare u → read bare (u ++ s) ≡ push_all u (read bare s)
unfolding read
read_bare [] s h = refl
read_bare (c ∷ u) s h = rw (bare_taken c h.0, read_bare u s h.1)

pub read_between :
    (c : ℕ) (u s : Text)
    → IsBare (c ∷ u)
    → read between (c ∷ u ++ s) ≡ push_all (c ∷ u) (read bare s)
unfolding read
read_between c u s h = rw (bare_begun c h.0, read_bare u s h.1)
