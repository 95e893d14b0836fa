-- ===== src/Ssh/Commons/Shell/ExitCode.antt =====
-- src/ssh/commons.rs, `perform_shell_cmd_with_rc`: the exit code behind an output, and its reading.
use remotefs_rs_ssh.Prelude.{
  ℕ, ◌+◌, ◌-◌, ◌<◌, ◌^◌, ◌≡◌, ◌≢◌, ◌∙◌, ◌⊎◌, inl, inr, false, none, some, [], ◌∷◌, ◌++◌, All,
  All-map, append_assoc, arith,
}
use remotefs_rs_ssh.Text.{
  Text, newline, is_whitespace, trim_end, trim, rfind, slice_from, slice_to, byte_len,
}
use remotefs_rs_ssh.Text.Trim.{newline_space, StartsSolid, trim_start_solid, trim_end_solid}
use remotefs_rs_ssh.Text.Slice.{
  slice_from-append, slice_to-append, rfind_last, rfind-none, byte_len-append,
}
use remotefs_rs_ssh.Text.Number.{decimal, parse_u32}
use remotefs_rs_ssh.Text.Number.RoundTrip.{
  IsDigit, decimal-Digits, decimal-digits, parse_uint-decimal,
}
use remotefs_rs_ssh.Exec.{ok}
use remotefs_rs_ssh.Ssh.Commons.Shell.{read_rc, rc_of}

pub digit_solid : (c : ℕ) → IsDigit c → is_whitespace c ≡ false
unfolding is_whitespace
digit_solid c h = ground (arith, h.0, h.1)

pub no_newline : (n : ℕ) → All (λ d. d ≢ newline) (decimal n)
no_newline n =
    All-map IsDigit (λ d. d ≢ newline) (λ d h. omega arith) (decimal n) (decimal-digits n)

parse_u32-decimal : (rc : ℕ) → rc < 2 ^ 32 → parse_u32 (decimal rc) ≡ some rc
unfolding parse_u32
parse_u32-decimal rc h = parse_uint-decimal (2 ^ 32 - 1) rc (omega arith)

-- The text in front of an exit code stays, and the newline behind it goes.
pub trim_end_rc :
    (s : Text) (rc : ℕ) → trim_end (s ++ (decimal rc ++ newline ∷ [])) ≡ s ++ decimal rc
trim_end_rc s rc =
    let d = decimal-Digits rc in
    rw d.split (
      simp append_assoc (
        simp append_assoc at (
          trim_end_solid (s ++ d.front) d.last newline (digit_solid d.last d.last_digit)
            newline_space)))

pub solid_front :
    (u : Text) (d : ℕ) (t : Text) → All IsDigit u → IsDigit d → StartsSolid (u ++ (d ∷ t))
solid_front [] d t h k = digit_solid d k
solid_front (c ∷ u) d t h k = digit_solid c h.0

pub decimal_solid : (rc : ℕ) (t : Text) → StartsSolid (decimal rc ++ t)
decimal_solid rc t =
    let d = decimal-Digits rc in
    rw d.split (simp append_assoc (solid_front d.front d.last t d.front_digits d.last_digit))

trim_rc : (rc : ℕ) → trim (newline ∷ (decimal rc ++ newline ∷ [])) ≡ decimal rc
unfolding trim
trim_rc rc =
    rw (trim_start_solid (decimal rc ++ newline ∷ []) (decimal_solid rc (newline ∷ [])))
      (trim_end_rc [] rc)

trim_rc_alone : (rc : ℕ) → trim (decimal rc ++ newline ∷ []) ≡ decimal rc
unfolding trim
trim_rc_alone rc =
    rw (trim_start_solid (decimal rc ++ newline ∷ []) (decimal_solid rc (newline ∷ [])))
      (trim_end_rc [] rc)

pub read_rc_found :
    (output : Text) (index : ℕ) (front rest : Text)
    → rfind newline (trim output) ≡ some index
    → slice_to (index + 1) output ≡ some front
    → slice_from index output ≡ some rest
    → read_rc output ≡ rc_of front (parse_u32 (trim rest))
unfolding read_rc
read_rc_found output index front rest found to from = rw (found, to, from)

pub read_rc_alone :
    (output : Text)
    → rfind newline (trim output) ≡ none
    → read_rc output ≡ rc_of [] (parse_u32 (trim output))
unfolding read_rc
read_rc_alone output missing = rw missing

-- The output, a newline, the exit code and another newline.
abbrev pub with_rc : Text → ℕ → Text
with_rc s rc = s ++ (newline ∷ (decimal rc ++ newline ∷ []))

pub trim-with_rc :
    (c : ℕ) (s : Text) (rc : ℕ)
    → is_whitespace c ≡ false
    → trim (with_rc (c ∷ s) rc) ≡ (c ∷ s) ++ (newline ∷ decimal rc)
unfolding trim
trim-with_rc c s rc solid =
    rw (trim_start_solid (with_rc (c ∷ s) rc) solid)
      (simp append_assoc at (trim_end_rc ((c ∷ s) ++ newline ∷ []) rc))

byte_len_line : (s : Text) → byte_len (s ++ newline ∷ []) ≡ byte_len s + 1
unfolding byte_len
byte_len_line s = byte_len-append s (newline ∷ [])

front_slice :
    (s t : Text) → slice_to (byte_len s + 1) (s ++ (newline ∷ t)) ≡ some (s ++ newline ∷ [])
front_slice s t =
    rw (← byte_len_line s) (simp append_assoc at (slice_to-append (s ++ newline ∷ []) t))

read_rc_lines :
    (c : ℕ) (s : Text) (rc : ℕ)
    → is_whitespace c ≡ false
    → rc < 2 ^ 32
    → read_rc (with_rc (c ∷ s) rc) ≡ ok (rc, (c ∷ s) ++ newline ∷ [])
read_rc_lines c s rc solid fits =
    read_rc_found (with_rc (c ∷ s) rc) (byte_len (c ∷ s)) ((c ∷ s) ++ newline ∷ [])
      (newline ∷ (decimal rc ++ newline ∷ []))
      (rw (trim-with_rc c s rc solid) (rfind_last newline (c ∷ s) (decimal rc) (no_newline rc)))
      (front_slice (c ∷ s) (decimal rc ++ newline ∷ []))
      (slice_from-append (c ∷ s) (newline ∷ (decimal rc ++ newline ∷ [])))
    ∙ rw (trim_rc rc, parse_u32-decimal rc fits)

read_rc_silent : (rc : ℕ) → rc < 2 ^ 32 → read_rc (decimal rc ++ newline ∷ []) ≡ ok (rc, [])
read_rc_silent rc fits =
    read_rc_alone (decimal rc ++ newline ∷ [])
      (rw (trim_rc_alone rc) (rfind-none newline (decimal rc) (no_newline rc)))
    ∙ rw (trim_rc_alone rc, parse_u32-decimal rc fits)

-- An output that the exit code is read behind: none, or lines of which the first one does not begin
-- with white space.
abbrev pub IsClean : Text → Type 0
IsClean out =
    (out ≡ [])
    ⊎ ((c : ℕ) × (s : Text) × (is_whitespace c ≡ false) × (out ≡ (c ∷ s) ++ newline ∷ []))

-- An output that is empty, or that begins with no white space and ends with a newline, followed by
-- an exit code below 2^32 as `echo $?` prints it, is read as that code and that output.
pub read_rc-clean :
    (out : Text) (rc : ℕ)
    → IsClean out
    → rc < 2 ^ 32
    → read_rc (out ++ (decimal rc ++ newline ∷ [])) ≡ ok (rc, out)
read_rc-clean out rc (inl silent) fits = rw silent (read_rc_silent rc fits)
read_rc-clean out rc (inr (c, s, solid, lines)) fits =
    rw lines (simp append_assoc (read_rc_lines c s rc solid fits))
