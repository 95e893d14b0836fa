-- ===== src/Ssh/Scp/Ops/ChangeDir.antt =====
-- src/ssh/scp.rs, `change_dir`: the exit code of `cd` and the new working directory.
use remotefs_rs_ssh.Prelude.{
  ℕ, zero, suc, ◌+◌, ◌/◌, ◌%◌, ◌<◌, ◌≡◌, ◌∙◌, refl, true, false, some, [], ◌∷◌, ◌++◌, append_assoc,
  arith, ◌==◌, ltb, Bool-cases, inl, inr, if◌then◌else◌,
}
use remotefs_rs_ssh.Text.{
  quoted, Text, codes, newline, is_whitespace, trim, trim_start, trim_end, starts_with, slice_from,
  utf8_len,
}
use remotefs_rs_ssh.Text.Trim.{
  newline_space, StartsSolid, trim_start_solid, trim_end_solid, trim_end-append,
}
use remotefs_rs_ssh.Text.Number.{decimal, show_radix}
use remotefs_rs_ssh.Utils.{absolutize}
use remotefs_rs_ssh.Remotefs.{new_ex, no_such_file_or_directory}
use remotefs_rs_ssh.Exec.{Outcome, ok, err, steps}
use remotefs_rs_ssh.Foreign.{world_steps}
use remotefs_rs_ssh.Host.{Host}
use remotefs_rs_ssh.Crates.{Crates}
use remotefs_rs_ssh.Ssh.Commons.Shell.{perform_shell_cmd}
use remotefs_rs_ssh.Ssh.Commons.Shell.ExitCode.{decimal_solid}
use remotefs_rs_ssh.Ssh.Scp.Client.{Scp, check_connection, is_connected, set_wrkdir, run}
use remotefs_rs_ssh.Ssh.Scp.Ops.{change_dir, enter_dir}

show-nonzero :
    (fuel n : ℕ) (t : Text)
    → n < fuel
    → 0 < n
    → starts_with (show_radix 10 fuel n ++ t) (codes "0") ≡ false
unfolding show_radix starts_with
show-nonzero zero n t h pos = elim h [ ]
show-nonzero (suc f) n t h pos = elim (Bool-cases (ltb n 10)) [
  | inl small ↦ rw small (ground arith)
  | inr large ↦
      rw (large, append_assoc)
        (show-nonzero f (n / 10) ((48 + n % 10) ∷ t) (ground arith) (ground arith))
]

decimal-nonzero : (n : ℕ) (t : Text) → 0 < n → starts_with (decimal n ++ t) (codes "0") ≡ false
unfolding decimal
decimal-nonzero n t pos = show-nonzero (suc n) n t (omega arith) pos

-- A path that `pwd` prints: neither its first nor its last character is white space.
pub record Printed (path : Text) : Type 0 where
  pub front : Text
  pub last : ℕ
  pub split : path ≡ front ++ last ∷ []
  pub starts : StartsSolid path
  pub last_solid : is_whitespace last ≡ false

-- The output of `cd …; echo $?; pwd`.
abbrev pub cd_output : ℕ → Text → Text
cd_output rc path = decimal rc ++ (newline ∷ (path ++ newline ∷ []))

trim-cd_output :
    (rc : ℕ) (path : Text)
    → Printed path
    → trim (cd_output rc path) ≡ decimal rc ++ (newline ∷ path)
unfolding trim
trim-cd_output rc path p =
    rw
      (
        trim_start_solid (cd_output rc path) (decimal_solid rc (newline ∷ (path ++ newline ∷ []))),
        p.split,
      )
      (simp append_assoc (
        simp append_assoc at (
          trim_end_solid (decimal rc ++ (newline ∷ p.front)) p.last newline p.last_solid
            newline_space)))

trim_end-path : (path : Text) → Printed path → trim_end path ≡ path
unfolding trim_end
trim_end-path path p =
    rw p.split (trim_end-append p.front (p.last ∷ []) p.last [] (rw p.last_solid))

trim_line : (path : Text) → Printed path → trim (newline ∷ path) ≡ path
unfolding trim trim_start
trim_line path p = rw (trim_start_solid path p.starts) (trim_end-path path p)

slice_zero : (path : Text) → slice_from 1 (decimal 0 ++ (newline ∷ path)) ≡ some (newline ∷ path)
unfolding slice_from decimal utf8_len
slice_zero path = refl

zero_starts : (path : Text) → starts_with (decimal 0 ++ (newline ∷ path)) (codes "0") ≡ true
unfolding starts_with decimal
zero_starts path = refl

module _ (C : Crates) (H : Host) where
  -- What `cd` leaves: the new directory, or an error for a code other than 0.
  abbrev pub moved : Text → ℕ → Text → Scp H → Outcome Text × Scp H
  moved dir rc path s =
      if rc == 0
      then (ok path, set_wrkdir H path s)
      else (err (new_ex no_such_file_or_directory (quoted dir)), s)

  enter_dir_zero :
      (dir output rest : Text) (s : Scp H)
      → starts_with output (codes "0") ≡ true
      → slice_from 1 output ≡ some rest
      → enter_dir C H dir output s ≡ (ok (trim rest), set_wrkdir H (trim rest) s)
  unfolding steps
  enter_dir_zero dir output rest s h k = rw (h, k)

  enter_dir_other :
      (dir output : Text) (s : Scp H)
      → starts_with output (codes "0") ≡ false
      → enter_dir C H dir output s ≡ (err (new_ex no_such_file_or_directory (quoted dir)), s)
  unfolding steps
  enter_dir_other dir output s h = rw h

  enter_dir-moved :
      (dir : Text) (rc : ℕ) (path : Text) (s : Scp H)
      → Printed path
      → enter_dir C H dir (decimal rc ++ (newline ∷ path)) s ≡ moved dir rc path s
  enter_dir-moved dir zero path s p =
      enter_dir_zero dir (decimal 0 ++ (newline ∷ path)) (newline ∷ path) s (zero_starts path)
        (slice_zero path)
      ∙ rw (trim_line path p)
  enter_dir-moved dir (suc n) path s p =
      enter_dir_other dir (decimal (suc n) ++ (newline ∷ path)) s
        (decimal-nonzero (suc n) (newline ∷ path) (omega arith))
      ∙ ground arith

  pub check_live :
      (x : H.Session) (s : Scp H)
      → s.client.session ≡ some x
      → H.authenticated x s.world ≡ true
      → check_connection H s ≡ (ok tt, s)
  unfolding check_connection is_connected steps
  check_live x s there live = rw (there, live)

  run_answered :
      (x : H.Session) (cmd : Text) (s : Scp H) (output : Text) (after : H.World)
      → s.client.session ≡ some x
      → perform_shell_cmd H x cmd s.world ≡ (ok output, after)
      → run H cmd s ≡ (ok output, record s { world = after })
  unfolding world_steps
  run_answered x cmd s output after there answered = rw (there, answered)

  -- On a live SCP session, where the shell answers `cd`, `echo $?` and `pwd` with an exit code and
  -- a path that begins and ends with no white space: for the code 0 that path is returned and is
  -- the new working directory; for any other the call fails with `NoSuchFileOrDirectory`, and the
  -- client is as it was.
  pub change_dir-moved :
      (x : H.Session) (dir : Text) (s : Scp H) (rc : ℕ) (path : Text) (after : H.World)
      → s.client.session ≡ some x
      → H.authenticated x s.world ≡ true
      → perform_shell_cmd H x
          (codes "cd " ++ (quoted (absolutize s.client.wrkdir dir) ++ codes "; echo $?; pwd"))
          s.world
        ≡ (ok (cd_output rc path), after)
      → Printed path
      → change_dir C H dir s
        ≡ moved (absolutize s.client.wrkdir dir) rc path (record s { world = after })
  unfolding change_dir steps
  change_dir-moved x dir s rc path after there live answered p =
      rw
        (
          check_live x s there live,
          run_answered x
              (codes "cd " ++ (quoted (absolutize s.client.wrkdir dir) ++ codes "; echo $?; pwd")) s
              (cd_output rc path) after there answered,
          trim-cd_output rc path p,
        )
        (enter_dir-moved (absolutize s.client.wrkdir dir) rc path (record s { world = after }) p)
