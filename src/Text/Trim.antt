-- ===== src/Text/Trim.antt =====
-- Trimming: what `trim` removes and what it keeps.
use remotefs_rs_ssh.Prelude.{ℕ, ◌≡◌, refl, ap, true, false, [], ◌∷◌, ◌++◌}
use remotefs_rs_ssh.Text.{Text, newline, is_whitespace, trim_start, trim_end, keep_front}

-- The text is empty or begins with a character that is no white space.
abbrev pub StartsSolid : Text → Type 0
StartsSolid [] = Unit
StartsSolid (c ∷ s) = is_whitespace c ≡ false

pub trim_start_solid : (s : Text) → StartsSolid s → trim_start s ≡ s
unfolding trim_start
trim_start_solid [] h = refl
trim_start_solid (c ∷ s) h = rw h

pub trim_end-append :
    (s t : Text) (d : ℕ) (u : Text) → trim_end t ≡ d ∷ u → trim_end (s ++ t) ≡ s ++ (d ∷ u)
unfolding trim_end
trim_end-append [] t d u h = h
trim_end-append (c ∷ []) t d u h = ap (keep_front c) h
trim_end-append (c ∷ e ∷ s) t d u h = ap (keep_front c) (trim_end-append (e ∷ s) t d u h)

pub trim_end_space : (c : ℕ) → is_whitespace c ≡ true → trim_end (c ∷ []) ≡ []
unfolding trim_end
trim_end_space c h = rw h

-- One white space at the end goes, and the text in front of it stays if it ends solidly.
pub trim_end_solid :
    (s : Text) (c w : ℕ)
    → is_whitespace c ≡ false
    → is_whitespace w ≡ true
    → trim_end (s ++ (c ∷ w ∷ [])) ≡ s ++ (c ∷ [])
unfolding trim_end
trim_end_solid s c w solid space = trim_end-append s (c ∷ w ∷ []) c [] (rw space (rw solid refl))

pub newline_space : is_whitespace newline ≡ true
unfolding is_whitespace
newline_space = refl
