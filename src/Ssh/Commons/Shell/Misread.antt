-- ===== src/Ssh/Commons/Shell/Misread.antt =====
-- src/ssh/commons.rs, `perform_shell_cmd_with_rc`: outputs that are no clean lines.
use remotefs_rs_ssh.Prelude.{
  ℕ, ◌+◌, ◌*◌, ◌-◌, ◌<◌, ◌^◌, ◌≡◌, ◌≢◌, refl, ◌∙◌, true, false, Option, none, some, [], ◌∷◌, ◌++◌,
  All-append, append_assoc, arith, Bool-cases, inl, inr, ltb, if◌then◌else◌,
}
use native.Mathlib.Nat.{add-zero}
use remotefs_rs_ssh.Text.{
  Text, newline, is_whitespace, trim, rfind, slice_from, slice_to, byte_len, utf8_len,
}
use remotefs_rs_ssh.Text.Trim.{StartsSolid, trim_start_solid}
use remotefs_rs_ssh.Text.Slice.{
  slice_from-append, slice_to-append, slice_from_inside, rfind_last, rfind-none, byte_len-append,
}
use remotefs_rs_ssh.Text.Number.{decimal, parse_u32, parse_digits}
use remotefs_rs_ssh.Text.Number.RoundTrip.{decimal_digit, parse_uint-decimal_digit}
use remotefs_rs_ssh.Exec.{ok, err, panic}
use remotefs_rs_ssh.Ssh.Commons.Shell.{read_rc, rc_split, no_exit_code}
use remotefs_rs_ssh.Ssh.Commons.Shell.ExitCode.{
  decimal_solid, no_newline, with_rc, trim_end_rc, trim-with_rc, read_rc_found, read_rc_alone,
}

parse_digits-none : (limit : ℕ) (t : Text) → parse_digits limit none t ≡ none
unfolding parse_digits
parse_digits-none limit [] = refl
parse_digits-none limit (c ∷ t) = refl

parse_u32_line : (d : ℕ) (t : Text) → parse_u32 (d ∷ newline ∷ t) ≡ none
unfolding parse_u32
parse_u32_line d t = ground (arith, parse_digits-none (2 ^ 32 - 1) t)

byte_len_cons : (c : ℕ) (s : Text) → byte_len (c ∷ s) ≡ utf8_len c + byte_len s
unfolding byte_len
byte_len_cons c s = refl

byte_len_nil : byte_len [] ≡ 0
unfolding byte_len
byte_len_nil = refl

utf8_len_ascii : (d : ℕ) → ltb d 0x80 ≡ true → utf8_len d ≡ 1
unfolding utf8_len
utf8_len_ascii d h = rw h

utf8_len_wide : (d : ℕ) → ltb d 0x80 ≡ false → 1 < utf8_len d
unfolding utf8_len
utf8_len_wide d h = ground arith

read_rc_panics :
    (output : Text) (index : ℕ)
    → rfind newline (trim output) ≡ some index
    → slice_from index output ≡ none
    → read_rc output ≡ panic
unfolding read_rc
read_rc_panics output index found from = rw (found, from) (no_rest (slice_to (index + 1) output))
  where
    no_rest : (front : Option Text) → rc_split front none ≡ panic
    no_rest none = refl
    no_rest (some front) = refl

trim_indented :
    (w : ℕ) (s : Text) (rc : ℕ)
    → is_whitespace w ≡ true
    → trim (w ∷ with_rc s rc) ≡ trim (with_rc s rc)
unfolding trim
trim_indented w s rc space = rw space

trim_solid_rc :
    (s : Text) (d rc : ℕ)
    → StartsSolid (s ++ d ∷ [])
    → trim (with_rc (s ++ d ∷ []) rc) ≡ (s ++ d ∷ []) ++ (newline ∷ decimal rc)
trim_solid_rc [] d rc solid = trim-with_rc d [] rc solid
trim_solid_rc (c ∷ s) d rc solid = trim-with_rc c (s ++ d ∷ []) rc solid

module _ (w : ℕ) (s : Text) (d rc : ℕ) (space : is_whitespace w ≡ true) (narrow : utf8_len w ≡ 1)
    (solid : StartsSolid (s ++ d ∷ [])) (last : is_whitespace d ≡ false) where
  found : rfind newline (trim (w ∷ with_rc (s ++ d ∷ []) rc)) ≡ some (byte_len (s ++ d ∷ []))
  found =
      rw (trim_indented w (s ++ d ∷ []) rc space, trim_solid_rc s d rc solid)
        (rfind_last newline (s ++ d ∷ []) (decimal rc) (no_newline rc))

  index_of_last : byte_len (s ++ d ∷ []) + 1 ≡ byte_len (w ∷ s) + utf8_len d
  index_of_last =
      rw (byte_len-append s (d ∷ []), byte_len_cons d [], byte_len_nil, byte_len_cons w s, narrow)
        (omega arith)

  front_index : byte_len (s ++ d ∷ []) + 1 ≡ byte_len (w ∷ (s ++ d ∷ []))
  front_index = rw (byte_len_cons w (s ++ d ∷ []), narrow) (omega arith)

  front_slice :
      slice_to (byte_len (s ++ d ∷ []) + 1) (w ∷ with_rc (s ++ d ∷ []) rc)
      ≡ some (w ∷ (s ++ d ∷ []))
  front_slice =
      rw (front_index)
        (slice_to-append (w ∷ (s ++ d ∷ [])) (newline ∷ (decimal rc ++ newline ∷ [])))

  rest_at :
      (k : ℕ)
      → byte_len (s ++ d ∷ []) ≡ byte_len (w ∷ s) + k
      → slice_from (byte_len (s ++ d ∷ [])) (w ∷ with_rc (s ++ d ∷ []) rc)
        ≡ slice_from (byte_len (w ∷ s) + k) ((w ∷ s) ++ with_rc (d ∷ []) rc)
  rest_at k e = rw e (simp append_assoc)

  read_rc_ascii : utf8_len d ≡ 1 → read_rc (w ∷ with_rc (s ++ d ∷ []) rc) ≡ err no_exit_code
  read_rc_ascii one =
      read_rc_found (w ∷ with_rc (s ++ d ∷ []) rc) (byte_len (s ++ d ∷ [])) (w ∷ (s ++ d ∷ []))
        (with_rc (d ∷ []) rc) found front_slice
        (rest_at 0 (omega (arith, index_of_last))
          ∙ rw add-zero (slice_from-append (w ∷ s) (with_rc (d ∷ []) rc)))
      ∙ rw (trim-with_rc d [] rc last, parse_u32_line d (decimal rc))

  read_rc_wide : 1 < utf8_len d → read_rc (w ∷ with_rc (s ++ d ∷ []) rc) ≡ panic
  read_rc_wide wide = read_rc_panics (w ∷ with_rc (s ++ d ∷ []) rc) (byte_len (s ++ d ∷ [])) found (
      rest_at (utf8_len d - 1) (omega (arith, index_of_last))
      ∙ slice_from_inside (w ∷ s) d (newline ∷ (decimal rc ++ newline ∷ [])) (utf8_len d - 1)
          (omega arith) (omega arith))

  -- Behind an output that begins with one white space of one byte, goes on with a character that
  -- is no white space and ends, before its newline, with another such character, an exit code is
  -- not read: the call fails with a protocol error if that last character is ASCII, and panics if
  -- it is not.
  pub read_rc_indented :
      read_rc (w ∷ with_rc (s ++ d ∷ []) rc) ≡ (if ltb d 0x80 then err no_exit_code else panic)
  read_rc_indented = elim (Bool-cases (ltb d 0x80)) [
    | inl ascii ↦ rw ascii (read_rc_ascii (utf8_len_ascii d ascii))
    | inr wide ↦ rw wide (read_rc_wide (utf8_len_wide d wide))
  ]

parse_glued :
    (n d : ℕ)
    → d < 10
    → n * 10 + d < 2 ^ 32
    → parse_u32 (decimal n ++ decimal d) ≡ some (n * 10 + d)
unfolding parse_u32
parse_glued n d small fits =
    rw (decimal_digit d small) (parse_uint-decimal_digit (2 ^ 32 - 1) n d small (omega arith))

trim_glued : (n d : ℕ) → trim (decimal n ++ (decimal d ++ newline ∷ [])) ≡ decimal n ++ decimal d
unfolding trim
trim_glued n d =
    rw
      (trim_start_solid (decimal n ++ (decimal d ++ newline ∷ []))
        (decimal_solid n (decimal d ++ newline ∷ [])))
      (trim_end_rc (decimal n) d)

-- An output that is a number without a newline at its end runs into an exit code of one digit:
-- where the digits together stay below 2^32, they are returned as the exit code, with no output.
pub read_rc_glued :
    (n d : ℕ)
    → d < 10
    → n * 10 + d < 2 ^ 32
    → read_rc (decimal n ++ (decimal d ++ newline ∷ [])) ≡ ok (n * 10 + d, [])
read_rc_glued n d small fits =
    read_rc_alone (decimal n ++ (decimal d ++ newline ∷ [])) (
      rw (trim_glued n d) (
        rfind-none newline (decimal n ++ decimal d)
          (All-append (λ c. c ≢ newline) (decimal n) (decimal d) (no_newline n) (no_newline d))))
    ∙ rw (trim_glued n d, parse_glued n d small fits)
