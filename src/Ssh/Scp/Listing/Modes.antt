-- ===== src/Ssh/Scp/Listing/Modes.antt =====
-- src/ssh/scp.rs, `parse_ls_output`: the permissions as `ls` prints them, read as mode digits.
use remotefs_rs_ssh.Prelude.{
  ltb, ◌≢◌, ℕ, ◌+◌, ◌-◌, ◌≡◌, refl, ◌∙◌, Bool, true, false, [], ◌∷◌, ◌++◌, arith, ap,
}
use remotefs_rs_ssh.Text.{Text, byte_len, utf8_len}
use remotefs_rs_ssh.Text.Slice.{slice_from-append, slice_to-append, byte_len-append}
use remotefs_rs_ssh.Ssh.Scp.Listing.{listed, pex, pex_count}

-- Whether a class of users may read, write and execute.
pub record Permissions : Type 0 where
  pub read : Bool
  pub write : Bool
  pub execute : Bool

abbrev pub flag : ℕ → Bool → ℕ
flag c true = c
flag c false = b'-'

-- The three characters that `ls` prints of a class without the set-id and sticky bits.
abbrev pub show_class : Permissions → Text
show_class p = flag b'r' p.read ∷ flag b'w' p.write ∷ flag b'x' p.execute ∷ []

abbrev pub show_mode : Permissions → Permissions → Permissions → Text
show_mode u g o = show_class u ++ (show_class g ++ show_class o)

abbrev pub bit : ℕ → Bool → ℕ
bit n true = n
bit n false = 0

-- The octal digit of a class.
abbrev pub digit_of : Permissions → ℕ
digit_of p = bit 4 p.read + (bit 2 p.write + bit 1 p.execute)

byte_len-show_class : (p : Permissions) → byte_len (show_class p) ≡ 3
unfolding byte_len utf8_len
byte_len-show_class p = go p.read p.write p.execute
  where
    go : (r w x : Bool) → byte_len (flag b'r' r ∷ flag b'w' w ∷ flag b'x' x ∷ []) ≡ 3
    go true true true = refl
    go true true false = refl
    go true false true = refl
    go true false false = refl
    go false true true = refl
    go false true false = refl
    go false false true = refl
    go false false false = refl

pex_count-show_class : (p : Permissions) → pex_count 0 (show_class p) ≡ digit_of p
unfolding pex_count
pex_count-show_class p = go p.read p.write p.execute
  where
    go :
        (r w x : Bool)
        → pex_count 0 (flag b'r' r ∷ flag b'w' w ∷ flag b'x' x ∷ []) ≡ bit 4 r + (bit 2 w + bit 1 x)
    go true true true = refl
    go true true false = refl
    go true false true = refl
    go true false false = refl
    go false true true = refl
    go false true false = refl
    go false false true = refl
    go false false false = refl

pub pex-slice :
    (front mid back : Text) (a b : ℕ)
    → byte_len front ≡ a
    → byte_len mid ≡ b - a
    → pex (front ++ (mid ++ back)) a b ≡ listed (pex_count 0 mid)
unfolding pex
pex-slice front mid back a b at_front at_mid = rw (
  ← at_front,
  slice_from-append front (mid ++ back),
  at_front,
  ← at_mid,
  slice_to-append mid back,
)

pex-class :
    (front : Text) (p : Permissions) (back : Text) (a : ℕ)
    → byte_len front ≡ a
    → pex (front ++ (show_class p ++ back)) a (a + 3) ≡ listed (digit_of p)
pex-class front p back a at_front =
    pex-slice front (show_class p) back a (a + 3) at_front (byte_len-show_class p ∙ omega arith)
    ∙ ap listed (pex_count-show_class p)

-- The octal digits of the three classes are read from the nine characters that `ls` prints of
-- their permissions.
pub pex-show_mode :
    (u g o : Permissions)
    → (pex (show_mode u g o) 0 3 ≡ listed (digit_of u))
      × (pex (show_mode u g o) 3 6 ≡ listed (digit_of g))
      × (pex (show_mode u g o) 6 9 ≡ listed (digit_of o))
pex-show_mode u g o = (
  pex-class [] u (show_class g ++ show_class o) 0 (unfold byte_len in refl),
  pex-class (show_class u) g (show_class o) 3 (byte_len-show_class u),
  pex-class (show_class u ++ show_class g) o [] 6 (
      byte_len-append (show_class u) (show_class g)
      ∙ rw (byte_len-show_class u, byte_len-show_class g)),
)

pub byte_len-show_mode : (u g o : Permissions) → byte_len (show_mode u g o) ≡ 9
byte_len-show_mode u g o =
    byte_len-append (show_class u) (show_class g ++ show_class o)
    ∙ rw (
      byte_len-append (show_class g) (show_class o),
      byte_len-show_class u,
      byte_len-show_class g,
      byte_len-show_class o,
    )

-- A class whose last character is a mark for a set-id or sticky bit.
abbrev pub show_marked : Permissions → ℕ → Text
show_marked p mark = flag b'r' p.read ∷ flag b'w' p.write ∷ mark ∷ []

byte_len-show_marked :
    (p : Permissions) (mark : ℕ) → ltb mark 0x80 ≡ true → byte_len (show_marked p mark) ≡ 3
unfolding byte_len utf8_len
byte_len-show_marked p mark narrow = go p.read p.write
  where
    go : (r w : Bool) → byte_len (flag b'r' r ∷ flag b'w' w ∷ mark ∷ []) ≡ 3
    go true true = rw narrow
    go true false = rw narrow
    go false true = rw narrow
    go false false = rw narrow

pex_count-show_marked :
    (p : Permissions) (mark : ℕ)
    → mark ≢ b'-'
    → pex_count 0 (show_marked p mark) ≡ digit_of (record p { execute = true })
unfolding pex_count
pex_count-show_marked p mark other = go p.read p.write
  where
    go :
        (r w : Bool) → pex_count 0 (flag b'r' r ∷ flag b'w' w ∷ mark ∷ []) ≡ bit 4 r + (bit 2 w + 1)
    go true true = ground arith
    go true false = ground arith
    go false true = ground arith
    go false false = ground arith

-- Each ASCII mark in place of the execution bit of the first class is read as execution, `S` and
-- `T` included, by which `ls` says that there is none.
pub pex-show_marked :
    (p : Permissions) (mark : ℕ) (back : Text)
    → ltb mark 0x80 ≡ true
    → mark ≢ b'-'
    → pex (show_marked p mark ++ back) 0 3 ≡ listed (digit_of (record p { execute = true }))
pex-show_marked p mark back narrow other =
    pex-slice [] (show_marked p mark) back 0 3 (unfold byte_len in refl)
      (byte_len-show_marked p mark narrow)
    ∙ ap listed (pex_count-show_marked p mark other)
