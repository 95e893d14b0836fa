-- ===== src/Text/Number.antt =====
-- Numbers in text: `format!("{}")`, `format!("{:o}")` and `FromStr` of the unsigned types.
pub mod RoundTrip
use remotefs_rs_ssh.Prelude.{
  ℕ, zero, suc, ◌+◌, ◌-◌, ◌*◌, ◌/◌, ◌%◌, ◌^◌, Bool, ◌&&◌, Option, none, some, List, [], ◌∷◌, ◌++◌,
  ltb, leb, ◌==◌, if◌then◌else◌,
}

-- The digits of a number to a base. The fuel is an upper bound on their count.
unfoldable pub show_radix : ℕ → ℕ → ℕ → List ℕ
show_radix base zero n = []
show_radix base (suc fuel) n =
    let front = show_radix base fuel (n / base) in
    if ltb n base then (48 + n) ∷ [] else front ++ (48 + n % base) ∷ []

-- `{}`
unfoldable pub decimal : ℕ → List ℕ
unfolding show_radix
decimal n = show_radix 10 (suc n) n

-- `{:o}`
unfoldable pub octal : ℕ → List ℕ
unfolding show_radix
octal n = show_radix 8 (suc n) n

abbrev pub is_digit : ℕ → Bool
is_digit c = leb 48 c && leb c 57

-- `checked_mul` and `checked_add` at each digit.
abbrev pub push_digit : ℕ → ℕ → ℕ → Option ℕ
push_digit limit value c =
    if is_digit c && leb (value * 10 + (c - 48)) limit then some (value * 10 + (c - 48)) else none

unfoldable pub parse_digits : ℕ → Option ℕ → List ℕ → Option ℕ
parse_digits limit value [] = value
parse_digits limit none (c ∷ s) = none
parse_digits limit (some value) (c ∷ s) = parse_digits limit (push_digit limit value c) s

-- A sign may stand before at least one digit.
unfoldable pub parse_uint : ℕ → List ℕ → Option ℕ
unfolding parse_digits
parse_uint limit [] = none
parse_uint limit (c ∷ []) = push_digit limit 0 c
parse_uint limit (c ∷ d ∷ s) =
    if c == b'+'
    then parse_digits limit (some 0) (d ∷ s)
    else parse_digits limit (some 0) (c ∷ d ∷ s)

unfoldable pub parse_u32 : List ℕ → Option ℕ
unfolding parse_uint
parse_u32 s = parse_uint (2 ^ 32 - 1) s

unfoldable pub parse_u64 : List ℕ → Option ℕ
unfolding parse_uint
parse_u64 s = parse_uint (2 ^ 64 - 1) s
