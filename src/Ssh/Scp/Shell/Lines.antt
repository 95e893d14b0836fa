-- ===== src/Ssh/Scp/Shell/Lines.antt =====
-- The lines of the commands that src/ssh/scp.rs sends, as a shell reads them.
use remotefs_rs_ssh.Prelude.{
  ℕ, zero, suc, ◌+◌, ◌/◌, ◌%◌, ◌≡◌, refl, ◌∙◌, true, Option, none, some, List, [], ◌∷◌, ◌++◌, All,
  All-map, All-append, append_assoc, ap, subst, append-nil, arith, ltb, inl, inr, Bool-cases,
}
use remotefs_rs_ssh.Text.{Text, codes, quoted}
use remotefs_rs_ssh.Text.Number.{decimal, octal, show_radix}
use remotefs_rs_ssh.Text.Number.RoundTrip.{IsDigit, decimal-Digits, decimal-digits}
use remotefs_rs_ssh.Ssh.Scp.Shell.{
  Command, test_exists, rm, rmdir, rm_recursive, mkdir, link, cp, mv, chmod, chown, touch_accessed,
  touch_modified, line_of, group_part,
}
use remotefs_rs_ssh.Ssh.Scp.Shell.Words.{
  between, bare, inside, read, read_words, is_bare, IsPlain, IsBare, push_all-word, read_inside,
  read_between,
}

-- A bare word.
pub record IsWord (u : Text) : Type 0 where
  pub first : ℕ
  pub rest : Text
  pub split : u ≡ first ∷ rest
  pub is_bare : IsBare u

-- The words of a command.
abbrev pub words_of : Command → List Text
words_of (test_exists p) = codes "test" ∷ codes "-e" ∷ p ∷ []
words_of (rm p) = codes "rm" ∷ codes "-f" ∷ p ∷ []
words_of (rmdir p) = codes "rmdir" ∷ p ∷ []
words_of (rm_recursive p) = codes "rm" ∷ codes "-rf" ∷ p ∷ []
words_of (mkdir mode p) = codes "mkdir" ∷ codes "-m" ∷ octal mode ∷ p ∷ []
words_of (link target p) = codes "ln" ∷ codes "-s" ∷ target ∷ p ∷ []
words_of (cp src dest) = codes "cp" ∷ codes "-rf" ∷ src ∷ dest ∷ []
words_of (mv src dest) = codes "mv" ∷ codes "-f" ∷ src ∷ dest ∷ []
words_of (chmod mode p) = codes "chmod" ∷ octal mode ∷ p ∷ []
words_of (chown uid gid p) = codes "chown" ∷ (decimal uid ++ group_part gid) ∷ p ∷ []
words_of (touch_accessed stamp p) = codes "touch" ∷ codes "-a" ∷ codes "-t" ∷ stamp ∷ p ∷ []
words_of (touch_modified stamp p) = codes "touch" ∷ codes "-m" ∷ codes "-t" ∷ stamp ∷ p ∷ []

-- The paths of a command are plain, and a time is a bare word.
abbrev pub IsPlainCommand : Command → Type 0
IsPlainCommand (link target p) = IsPlain target × IsPlain p
IsPlainCommand (cp src dest) = IsPlain src × IsPlain dest
IsPlainCommand (mv src dest) = IsPlain src × IsPlain dest
IsPlainCommand (touch_accessed stamp p) = IsWord stamp × IsPlain p
IsPlainCommand (touch_modified stamp p) = IsWord stamp × IsPlain p
IsPlainCommand (test_exists p) = IsPlain p
IsPlainCommand (rm p) = IsPlain p
IsPlainCommand (rmdir p) = IsPlain p
IsPlainCommand (rm_recursive p) = IsPlain p
IsPlainCommand (mkdir mode p) = IsPlain p
IsPlainCommand (chmod mode p) = IsPlain p
IsPlainCommand (chown uid gid p) = IsPlain p

abbrev pub echo : Text
echo = codes "; echo $?"

-- What stands behind the `;`.
abbrev pub asked : Text
asked = codes " echo $?"

-- The quoted rest of a word, and what follows it.
plain_word :
    (p s : Text) (words : List Text) (rest : Text)
    → IsPlain p
    → read bare s ≡ some ([] ∷ words, rest)
    → read inside (p ++ 34 ∷ s) ≡ some (p ∷ words, rest)
plain_word p s words rest h k = rw (read_inside p s h, k, push_all-word p [] words rest, append-nil)

last_word : (p : Text) → IsPlain p → read inside (p ++ 34 ∷ echo) ≡ some (p ∷ [], asked)
unfolding read
last_word p h = plain_word p echo [] asked h refl

pub two_words :
    (p q : Text)
    → IsPlain p
    → IsPlain q
    → read inside (p ++ 34 ∷ 32 ∷ 34 ∷ (q ++ 34 ∷ echo)) ≡ some (p ∷ q ∷ [], asked)
unfolding read
two_words p q h k = plain_word p _ (q ∷ []) asked h (rw (last_word q k))

next_quoted :
    (p : Text) → IsPlain p → read bare (32 ∷ 34 ∷ (p ++ 34 ∷ echo)) ≡ some ([] ∷ p ∷ [], asked)
unfolding read
next_quoted p h = rw (last_word p h)

-- A bare word and what follows it.
pub first_word :
    (u s : Text) (words : List Text)
    → IsWord u
    → read bare s ≡ some ([] ∷ words, asked)
    → read between (u ++ s) ≡ some (u ∷ words, asked)
first_word u s words w behind = go w.first w.rest w.split (subst IsBare w.split w.is_bare)
  where
    go :
        (c : ℕ) (v : Text)
        → u ≡ c ∷ v
        → IsBare (c ∷ v)
        → read between (u ++ s) ≡ some (u ∷ words, asked)
    go c v e bare_all =
        rw
          (e, read_between c v s bare_all, behind, push_all-word (c ∷ v) [] words asked, append-nil)

bare_word :
    (u p : Text)
    → IsWord u
    → IsPlain p
    → read between (u ++ 32 ∷ 34 ∷ (p ++ 34 ∷ echo)) ≡ some (u ∷ p ∷ [], asked)
bare_word u p w h = first_word u _ (p ∷ []) w (next_quoted p h)

digits_bare : (s : Text) → All IsDigit s → IsBare s
digits_bare s h = All-map IsDigit (λ c. is_bare c ≡ true) (λ c d. ground (arith, d)) s h

first_of : (front : Text) (last : ℕ) (s : Text) → s ≡ front ++ last ∷ [] → IsBare s → IsWord s
first_of [] last s e h = record { first = last; rest = []; split = e; is_bare = h }
first_of (c ∷ front) last s e h = record {
  first = c;
  rest = front ++ last ∷ [];
  split = e;
  is_bare = h;
}

decimal-IsWord : (n : ℕ) → IsWord (decimal n)
decimal-IsWord n =
    let d = decimal-Digits n in
    first_of d.front d.last (decimal n) d.split (digits_bare (decimal n) (decimal-digits n))

octal_digits : (fuel n : ℕ) → All IsDigit (show_radix 8 fuel n)
unfolding show_radix
octal_digits zero n = tt
octal_digits (suc f) n = elim (Bool-cases (ltb n 8)) [
  | inl small ↦ rw small (ground arith)
  | inr large ↦ rw large (
      All-append IsDigit (show_radix 8 f (n / 8)) ((48 + n % 8) ∷ []) (octal_digits f (n / 8))
        (omega arith, tt))
]

pub octal-IsWord : (n : ℕ) → IsWord (octal n)
unfolding octal show_radix
octal-IsWord n = elim (Bool-cases (ltb n 8)) [
  | inl small ↦
      first_of [] (48 + n) (octal n) (rw small) (digits_bare (octal n) (octal_digits (suc n) n))
  | inr large ↦
      first_of (show_radix 8 n (n / 8)) (48 + n % 8) (octal n) (rw large)
        (digits_bare (octal n) (octal_digits (suc n) n))
]

owner-IsWord : (uid : ℕ) (gid : Option ℕ) → IsWord (decimal uid ++ group_part gid)
owner-IsWord uid none = rw append-nil (decimal-IsWord uid)
owner-IsWord uid (some g) =
    let w = decimal-IsWord uid in
    record {
      first = w.first;
      rest = w.rest ++ (58 ∷ decimal g);
      split = ap (λ u. u ++ (58 ∷ decimal g)) w.split;
      is_bare =
          All-append (λ c. is_bare c ≡ true) (decimal uid) (58 ∷ decimal g) w.is_bare
            (refl, (decimal-IsWord g).is_bare);
    }

-- The texts of the lines behind the names of their programs, from left to right.
word_first : (u p : Text) → (u ++ 32 ∷ quoted p) ++ echo ≡ u ++ (32 ∷ 34 ∷ (p ++ 34 ∷ echo))
word_first u p =
    append_assoc u (32 ∷ quoted p) echo
    ∙ ap (λ t. u ++ (32 ∷ 34 ∷ t)) (append_assoc p (34 ∷ []) echo)

both_quoted :
    (p q : Text)
    → ((p ++ 34 ∷ []) ++ 32 ∷ quoted q) ++ echo ≡ p ++ (34 ∷ 32 ∷ 34 ∷ (q ++ 34 ∷ echo))
both_quoted p q =
    ap (λ t. t ++ echo) (append_assoc p (34 ∷ []) (32 ∷ quoted q))
    ∙ append_assoc p (34 ∷ 32 ∷ quoted q) echo
    ∙ ap (λ t. p ++ (34 ∷ 32 ∷ 34 ∷ t)) (append_assoc q (34 ∷ []) echo)

pub line_of-words :
    (c : Command) → IsPlainCommand c → read_words (line_of c ++ echo) ≡ some (words_of c, asked)
unfolding read
line_of-words (test_exists p) h = rw (append_assoc, last_word p h)
line_of-words (rm p) h = rw (append_assoc, last_word p h)
line_of-words (rmdir p) h = rw (append_assoc, last_word p h)
line_of-words (rm_recursive p) h = rw (append_assoc, last_word p h)
line_of-words (mkdir mode p) h =
    rw (word_first (octal mode) p, bare_word (octal mode) p (octal-IsWord mode) h)
line_of-words (chmod mode p) h =
    rw (word_first (octal mode) p, bare_word (octal mode) p (octal-IsWord mode) h)
line_of-words (link target p) h = rw (both_quoted target p, two_words target p h.0 h.1)
line_of-words (cp src dest) h = rw (both_quoted src dest, two_words src dest h.0 h.1)
line_of-words (mv src dest) h = rw (both_quoted src dest, two_words src dest h.0 h.1)
line_of-words (chown uid gid p) h =
    let owner = decimal uid ++ group_part gid in
    rw (
      ← append_assoc (decimal uid) (group_part gid) (32 ∷ quoted p),
      word_first owner p,
      bare_word owner p (owner-IsWord uid gid) h,
    )
line_of-words (touch_accessed stamp p) h = rw (word_first stamp p, bare_word stamp p h.0 h.1)
line_of-words (touch_modified stamp p) h = rw (word_first stamp p, bare_word stamp p h.0 h.1)
