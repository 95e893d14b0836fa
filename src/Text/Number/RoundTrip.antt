-- ===== src/Text/Number/RoundTrip.antt =====
-- Numbers in text, printed and read.
use remotefs_rs_ssh.Prelude.{
  ℕ, zero, suc, ◌+◌, ◌*◌, ◌/◌, ◌%◌, ◌≤◌, ◌<◌, ◌≡◌, refl, ◌∙◌, Option, none, some, List, [], ◌∷◌,
  ◌++◌, All, All-append, ap, Bool-cases, inl, inr, arith, ltb, lt→ltb,
}
use remotefs_rs_ssh.Text.Number.{show_radix, decimal, push_digit, parse_digits, parse_uint}

abbrev pub IsDigit : ℕ → Type 0
IsDigit c = (48 ≤ c) × (c ≤ 57)

pub parse_digits-append :
    (limit : ℕ) (v : Option ℕ) (s t : List ℕ)
    → parse_digits limit v (s ++ t) ≡ parse_digits limit (parse_digits limit v s) t
unfolding parse_digits
parse_digits-append limit none [] t = refl
parse_digits-append limit (some v) [] t = refl
parse_digits-append limit none (c ∷ s) [] = refl
parse_digits-append limit none (c ∷ s) (d ∷ t) = refl
parse_digits-append limit (some v) (c ∷ s) t = parse_digits-append limit (push_digit limit v c) s t

push_digit_small :
    (limit v d : ℕ) → d < 10 → v * 10 + d ≤ limit → push_digit limit v (48 + d) ≡ some (v * 10 + d)
push_digit_small limit v d small fits = ground arith

parse_digits-show :
    (limit fuel n : ℕ)
    → n < fuel
    → n ≤ limit
    → parse_digits limit (some 0) (show_radix 10 fuel n) ≡ some n
unfolding parse_digits show_radix
parse_digits-show limit zero n h fits = elim h [ ]
parse_digits-show limit (suc f) n h fits = elim (Bool-cases (ltb n 10)) [
  | inl small ↦ rw small (ground arith)
  | inr large ↦
      rw
        (
          large,
          parse_digits-append limit (some 0) (show_radix 10 f (n / 10)) ((48 + n % 10) ∷ []),
          parse_digits-show limit f (n / 10) (ground arith) (omega arith),
        )
        (push_digit_small limit (n / 10) (n % 10) (omega arith) (omega arith)
          ∙ ap some (omega arith))
]

-- The digits are a front and a last one, all between `0` and `9`.
pub record Digits (s : List ℕ) : Type 0 where
  pub front : List ℕ
  pub last : ℕ
  pub split : s ≡ front ++ last ∷ []
  pub front_digits : All IsDigit front
  pub last_digit : IsDigit last

pub Digits-All : {s : List ℕ} → Digits s → All IsDigit s
Digits-All d =
    rw (d.split) (All-append IsDigit d.front (d.last ∷ []) d.front_digits (d.last_digit, tt))

show_radix-Digits : (fuel n : ℕ) → n < fuel → Digits (show_radix 10 fuel n)
unfolding show_radix
show_radix-Digits zero n h = elim h [ ]
show_radix-Digits (suc f) n h = elim (Bool-cases (ltb n 10)) [
  | inl small ↦ record {
    front = [];
    last = 48 + n;
    split = rw small;
    front_digits = tt;
    last_digit = ground arith;
  }
  | inr large ↦ record {
    front = show_radix 10 f (n / 10);
    last = 48 + n % 10;
    split = rw large;
    front_digits = Digits-All (show_radix-Digits f (n / 10) (ground arith));
    last_digit = omega arith;
  }
]

pub decimal-Digits : (n : ℕ) → Digits (decimal n)
unfolding decimal
decimal-Digits n = show_radix-Digits (suc n) n (omega arith)

pub decimal-digits : (n : ℕ) → All IsDigit (decimal n)
decimal-digits n = Digits-All (decimal-Digits n)

-- A digit is no sign.
parse_uint_digits :
    (limit : ℕ) (s : List ℕ) (c : ℕ) (t : List ℕ)
    → All IsDigit (s ++ c ∷ t)
    → parse_uint limit (s ++ c ∷ t) ≡ parse_digits limit (some 0) (s ++ c ∷ t)
unfolding parse_uint
parse_uint_digits limit [] c [] h = refl
parse_uint_digits limit [] c (d ∷ t) h = ground (arith, h.0)
parse_uint_digits limit (b ∷ []) c t h = ground (arith, h.0)
parse_uint_digits limit (b ∷ d ∷ s) c t h = ground (arith, h.0)

pub parse_uint_front :
    (limit : ℕ) (s : List ℕ)
    → Digits s
    → All IsDigit s
    → parse_uint limit s ≡ parse_digits limit (some 0) s
parse_uint_front limit s d h =
    rw d.split (parse_uint_digits limit d.front d.last [] (rw d.split at h))

-- Printing a number and reading it back gives the number, up to the limit of the type.
pub parse_uint-decimal : (limit n : ℕ) → n ≤ limit → parse_uint limit (decimal n) ≡ some n
unfolding decimal
parse_uint-decimal limit n fits =
    let d = decimal-Digits n in
    parse_uint_front limit (decimal n) d (decimal-digits n)
    ∙ parse_digits-show limit (suc n) n (omega arith) fits

parse_last :
    (limit n d : ℕ)
    → d < 10
    → n * 10 + d ≤ limit
    → parse_digits limit (some n) ((48 + d) ∷ []) ≡ some (n * 10 + d)
unfolding parse_digits
parse_last limit n d small fits = push_digit_small limit n d small fits

pub decimal_digit : (d : ℕ) → d < 10 → decimal d ≡ (48 + d) ∷ []
unfolding decimal
decimal_digit d small = rw (lt→ltb d 10 small)

-- A number, and a digit behind it.
pub parse_uint-decimal_digit :
    (limit n d : ℕ)
    → d < 10
    → n * 10 + d ≤ limit
    → parse_uint limit (decimal n ++ (48 + d) ∷ []) ≡ some (n * 10 + d)
unfolding decimal
parse_uint-decimal_digit limit n d small fits =
    parse_uint_front limit (decimal n ++ (48 + d) ∷ [])
      (record {
        front = decimal n;
        last = 48 + d;
        split = refl;
        front_digits = decimal-digits n;
        last_digit = omega arith;
      })
      (All-append IsDigit (decimal n) ((48 + d) ∷ []) (decimal-digits n) (omega arith, tt))
    ∙ parse_digits-append limit (some 0) (decimal n) ((48 + d) ∷ [])
    ∙ rw (parse_digits-show limit (suc n) n (omega arith) (omega arith))
        (parse_last limit n d small fits)
