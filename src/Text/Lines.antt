-- ===== src/Text/Lines.antt =====
-- `str::lines` on a text of whole lines.
use remotefs_rs_ssh.Prelude.{
  ℕ, ◌≡◌, ◌≢◌, refl, ◌∙◌, ap, List, [], ◌∷◌, ◌++◌, All, ◌==◌, Bool-cases, inl, inr, arith,
}
use remotefs_rs_ssh.Text.{Text, newline, split_on, strip_return, ended_lines, lines}

-- A line: no newline in it, and no carriage return at its end.
abbrev pub IsLine : Text → Type 0
IsLine l = All (λ c. c ≢ newline) l × (strip_return l ≡ l)

-- Each line with its newline.
abbrev pub unlines : List Text → Text
unlines [] = []
unlines (l ∷ ls) = l ++ (newline ∷ unlines ls)

split_on-append :
    (sep : ℕ) (l rest : Text)
    → All (λ c. c ≢ sep) l
    → split_on sep (l ++ (sep ∷ rest)) ≡ l ∷ split_on sep rest
unfolding split_on
split_on-append sep [] rest h = ground arith
split_on-append sep (c ∷ l) rest h = rw (split_on-append sep l rest h.1) (ground (arith, h.0))

-- The pieces of a text are never none.
record Pieces (sep : ℕ) (s : Text) : Type 0 where
  pub first : Text
  pub others : List Text
  pub split : split_on sep s ≡ first ∷ others

split-Pieces : (sep : ℕ) (s : Text) → Pieces sep s
unfolding split_on
split-Pieces sep [] = record { first = []; others = []; split = refl }
split-Pieces sep (c ∷ s) = elim (Bool-cases (c == sep)) [
  | inl ends ↦ record { first = []; others = split_on sep s; split = rw ends }
  | inr goes ↦
      let p = split-Pieces sep s in
      record { first = c ∷ p.first; others = p.others; split = rw (goes, p.split) }
]

lines-cons : (l rest : Text) → IsLine l → lines (l ++ (newline ∷ rest)) ≡ l ∷ lines rest
unfolding lines
lines-cons l rest h =
    let p = split-Pieces newline rest in rw (split_on-append newline l rest h.0, p.split, h.1)

-- Whole lines are read back.
pub lines-unlines : (ls : List Text) → All IsLine ls → lines (unlines ls) ≡ ls
lines-unlines [] h = unfold lines ended_lines split_on in refl
lines-unlines (l ∷ ls) h = lines-cons l (unlines ls) h.0 ∙ ap (λ r. l ∷ r) (lines-unlines ls h.1)
