-- ===== src/Text.antt =====
-- Rust strings as lists of code points. An index into a string counts UTF-8 bytes, and a slice at
-- an index that is out of range or inside a character panics (`none` here).
pub mod Lines
pub mod Equal
pub mod Number
pub mod Trim
pub mod Slice
use Prim.Native.Char.{code}
use Prim.Native.String
use remotefs_rs_ssh.Prelude.{
  ℕ, zero, suc, ◌+◌, ◌-◌, String, Bool, true, false, ◌&&◌, ◌||◌, length, Option, none, some, List,
  [], ◌∷◌, ◌++◌, ltb, leb, ◌==◌, if◌then◌else◌, option_map,
}

abbrev pub Text : Type 0
Text = List ℕ

-- A literal.
abbrev pub codes : String → Text
codes String.[] = []
codes (String.◌∷◌ c s) = code c ∷ codes s

abbrev pub newline : ℕ
newline = 10

-- `str == str`
unfoldable pub text_eq : Text → Text → Bool
text_eq [] [] = true
text_eq [] (d ∷ t) = false
text_eq (c ∷ s) [] = false
text_eq (c ∷ s) (d ∷ t) = c == d && text_eq s t

-- `char::is_whitespace`: the Unicode property White_Space.
unfoldable pub is_whitespace : ℕ → Bool
is_whitespace c =
    (leb 9 c && leb c 13)
    || c == 32
    || c == 0x85
    || c == 0xA0
    || c == 0x1680
    || (leb 0x2000 c && leb c 0x200A)
    || c == 0x2028
    || c == 0x2029
    || c == 0x202F
    || c == 0x205F
    || c == 0x3000

-- `char::len_utf8`
unfoldable pub utf8_len : ℕ → ℕ
utf8_len c = if ltb c 0x80 then 1 else if ltb c 0x800 then 2 else if ltb c 0x10000 then 3 else 4

-- `str::len`
unfoldable pub byte_len : Text → ℕ
unfolding utf8_len
byte_len [] = 0
byte_len (c ∷ s) = utf8_len c + byte_len s

unfoldable pub trim_start : Text → Text
unfolding is_whitespace
trim_start [] = []
trim_start (c ∷ s) = if is_whitespace c then trim_start s else c ∷ s

-- A character in front of what is left of the text behind it.
abbrev pub keep_front : ℕ → Text → Text
keep_front c [] = if is_whitespace c then [] else c ∷ []
keep_front c (d ∷ s) = c ∷ d ∷ s

unfoldable pub trim_end : Text → Text
unfolding is_whitespace
trim_end [] = []
trim_end (c ∷ s) = keep_front c (trim_end s)

-- `str::trim`
unfoldable pub trim : Text → Text
unfolding trim_start trim_end
trim s = trim_end (trim_start s)

unfoldable pub starts_with : Text → Text → Bool
starts_with s [] = true
starts_with [] (d ∷ t) = false
starts_with (c ∷ s) (d ∷ t) = c == d && starts_with s t

abbrev pub found_at : ℕ → ℕ → Option ℕ → Option ℕ
found_at c d (some i) = some (utf8_len d + i)
found_at c d none = if c == d then some 0 else none

-- `str::rfind` of a character: the byte index of its last occurrence.
unfoldable pub rfind : ℕ → Text → Option ℕ
unfolding utf8_len
rfind c [] = none
rfind c (d ∷ s) = found_at c d (rfind c s)

-- `&s[n..]`
unfoldable pub slice_from : ℕ → Text → Option Text
unfolding utf8_len
slice_from n [] = if n == 0 then some [] else none
slice_from n (c ∷ s) =
    let rest = slice_from (n - utf8_len c) s in
    if n == 0 then some (c ∷ s) else if leb (utf8_len c) n then rest else none

-- `&s[..n]`
unfoldable pub slice_to : ℕ → Text → Option Text
unfolding utf8_len
slice_to n [] = if n == 0 then some [] else none
slice_to n (c ∷ s) =
    let rest = slice_to (n - utf8_len c) s in
    if n == 0 then some [] else if leb (utf8_len c) n then option_map (λ t. c ∷ t) rest else none

abbrev pub first_piece : ℕ → List Text → List Text
first_piece c [] = (c ∷ []) ∷ []
first_piece c (p ∷ ps) = (c ∷ p) ∷ ps

-- `str::split` on a character. The result is never empty.
unfoldable pub split_on : ℕ → Text → List Text
split_on sep [] = [] ∷ []
split_on sep (c ∷ s) =
    let rest = split_on sep s in if c == sep then [] ∷ rest else first_piece c rest

-- `[T]::join`
unfoldable pub join : Text → List Text → Text
join sep [] = []
join sep (p ∷ []) = p
join sep (p ∷ q ∷ ps) = p ++ (sep ++ join sep (q ∷ ps))

unfoldable pub split_skip : Text → ℕ → Text → List Text
unfolding starts_with
split_skip pat skip [] = [] ∷ []
split_skip pat (suc skip) (c ∷ s) = split_skip pat skip s
split_skip pat zero (c ∷ s) =
    let inside = split_skip pat 0 s in
    let behind = split_skip pat (length pat - 1) s in
    if starts_with (c ∷ s) pat then [] ∷ behind else first_piece c inside

-- `str::split` on a text that is not empty.
unfoldable pub split_text : Text → Text → List Text
unfolding split_skip
split_text pat s = split_skip pat 0 s

-- A carriage return at the end of a line is not part of it.
unfoldable pub strip_return : Text → Text
strip_return [] = []
strip_return (c ∷ []) = if c == 13 then [] else c ∷ []
strip_return (c ∷ d ∷ s) = c ∷ strip_return (d ∷ s)

abbrev pub last_line : Text → List Text
last_line [] = []
last_line (c ∷ s) = (c ∷ s) ∷ []

-- Every piece but the last was ended by a newline.
unfoldable pub ended_lines : List Text → List Text
unfolding strip_return
ended_lines [] = []
ended_lines (p ∷ []) = last_line p
ended_lines (p ∷ q ∷ ps) = strip_return p ∷ ended_lines (q ∷ ps)

-- `str::lines`
unfoldable pub lines : Text → List Text
unfolding ended_lines split_on
lines s = ended_lines (split_on newline s)

-- A text in double quotes, as the shell commands write a path.
abbrev pub quoted : Text → Text
quoted p = codes "\"" ++ (p ++ codes "\"")
