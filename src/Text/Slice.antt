-- ===== src/Text/Slice.antt =====
-- Slices at the boundary of two texts, and the index that `rfind` returns.
use remotefs_rs_ssh.Prelude.{
  ℕ, ◌+◌, ◌-◌, ◌<◌, ◌≡◌, ◌≢◌, refl, none, some, [], ◌∷◌, ◌++◌, All, arith,
}
use remotefs_rs_ssh.Text.{Text, utf8_len, byte_len, slice_from, slice_to, rfind}

pub utf8_len_pos : (c : ℕ) → 0 < utf8_len c
unfolding utf8_len
utf8_len_pos c = ground arith

add_sub_self : (a b : ℕ) → a + b - a ≡ b
add_sub_self a b = omega arith

add_sub_front : (a b k : ℕ) → a + b + k - a ≡ b + k
add_sub_front a b k = omega arith

pub slice_from-append : (s t : Text) → slice_from (byte_len s) (s ++ t) ≡ some t
unfolding slice_from byte_len
slice_from-append [] [] = refl
slice_from-append [] (c ∷ t) = refl
slice_from-append (c ∷ s) t =
    rw (add_sub_self (utf8_len c) (byte_len s))
      (ground (arith, utf8_len_pos c, slice_from-append s t))

pub slice_to-append : (s t : Text) → slice_to (byte_len s) (s ++ t) ≡ some s
unfolding slice_to byte_len
slice_to-append [] [] = refl
slice_to-append [] (c ∷ t) = refl
slice_to-append (c ∷ s) t =
    rw (add_sub_self (utf8_len c) (byte_len s))
      (ground (arith, utf8_len_pos c, slice_to-append s t))

pub rfind-none : (c : ℕ) (s : Text) → All (λ d. d ≢ c) s → rfind c s ≡ none
unfolding rfind
rfind-none c [] h = refl
rfind-none c (d ∷ s) h = rw (rfind-none c s h.1) (ground (arith, h.0))

pub rfind_last :
    (c : ℕ) (s t : Text) → All (λ d. d ≢ c) t → rfind c (s ++ (c ∷ t)) ≡ some (byte_len s)
unfolding rfind byte_len
rfind_last c [] t h = rw (rfind-none c t h) (ground arith)
rfind_last c (d ∷ s) t h = rw (rfind_last c s t h)

-- An index inside a character is no boundary.
pub slice_from_inside :
    (s : Text) (d : ℕ) (t : Text) (k : ℕ)
    → 0 < k
    → k < utf8_len d
    → slice_from (byte_len s + k) (s ++ (d ∷ t)) ≡ none
unfolding slice_from byte_len
slice_from_inside [] d t k pos small = ground arith
slice_from_inside (c ∷ s) d t k pos small =
    rw (add_sub_front (utf8_len c) (byte_len s) k)
      (ground (arith, utf8_len_pos c, slice_from_inside s d t k pos small))

pub byte_len-append : (s t : Text) → byte_len (s ++ t) ≡ byte_len s + byte_len t
unfolding byte_len
byte_len-append [] t = omega arith
byte_len-append (c ∷ s) t = omega (arith, byte_len-append s t)
