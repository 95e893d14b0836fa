-- ===== src/FilePath.antt =====
-- `std::path` on Unix, over the text of a path: the methods that the crate calls.
use remotefs_rs_ssh.Prelude.{
  ℕ, Bool, false, ◌||◌, Option, none, some, List, [], ◌∷◌, ◌++◌, reverse, ◌==◌, if◌then◌else◌,
}
use remotefs_rs_ssh.Text.{Text, codes, text_eq, split_on, join}

abbrev pub slash : ℕ
slash = 47

-- `Path::is_absolute`
unfoldable pub is_absolute : Text → Bool
is_absolute [] = false
is_absolute (c ∷ p) = c == slash

unfoldable pub ends_with_slash : Text → Bool
ends_with_slash [] = false
ends_with_slash (c ∷ []) = c == slash
ends_with_slash (c ∷ d ∷ p) = ends_with_slash (d ∷ p)

-- The separator that `push` puts in: none after an empty path or a final slash.
abbrev pub separator : Text → Text
separator [] = []
separator (c ∷ p) = if ends_with_slash (c ∷ p) then [] else slash ∷ []

-- `PathBuf::push`: an absolute path replaces the buffer.
unfoldable pub push : Text → Text → Text
unfolding is_absolute ends_with_slash
push base p = if is_absolute p then p else base ++ (separator base ++ p)

-- A piece between slashes that is no component.
abbrev pub is_skipped : Text → Bool
is_skipped piece = text_eq piece [] || text_eq piece (codes ".")

abbrev pub starts_with_slash : Text → Bool
starts_with_slash = is_absolute

-- What stands before the pieces of a path: the root, or a leading `.`.
abbrev pub head_of : Text → Text
head_of [] = []
head_of (c ∷ []) = if c == slash || c == b'.' then c ∷ [] else []
head_of (c ∷ d ∷ p) =
    if c == slash then c ∷ [] else if c == b'.' then (if d == slash then c ∷ [] else []) else []

abbrev pub body_of : Text → Text
body_of [] = []
body_of (c ∷ []) = if c == slash || c == b'.' then [] else c ∷ []
body_of (c ∷ d ∷ p) =
    if c == slash
    then d ∷ p
    else if c == b'.'
    then (if d == slash then d ∷ p else c ∷ d ∷ p)
    else c ∷ d ∷ p

unfoldable pub drop_skipped : List Text → List Text
unfolding text_eq
drop_skipped [] = []
drop_skipped (p ∷ ps) = let rest = drop_skipped ps in if is_skipped p then rest else p ∷ ps

-- The pieces from the last component on, backwards.
unfoldable pub pieces_back : Text → List Text
unfolding split_on drop_skipped is_absolute
pieces_back p = drop_skipped (reverse (split_on slash (body_of p)))

abbrev pub normal_name : List Text → Option Text
normal_name [] = none
normal_name (p ∷ ps) = if text_eq p (codes "..") then none else some p

-- `Path::file_name`: the last component, unless that is the root, `.` or `..`.
unfoldable pub file_name : Text → Option Text
unfolding pieces_back text_eq
file_name p = normal_name (pieces_back p)

abbrev pub parent_of : Text → List Text → Option Text
parent_of [] [] = none
parent_of (c ∷ h) [] = if c == slash then none else some []
parent_of h (p ∷ ps) = some (h ++ join (codes "/") (reverse (drop_skipped ps)))

-- `Path::parent`: the path in front of its last component; none of the root and of the empty path.
unfoldable pub parent : Text → Option Text
unfolding pieces_back drop_skipped join
parent p = parent_of (head_of p) (pieces_back p)
