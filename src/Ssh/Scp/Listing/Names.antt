-- ===== src/Ssh/Scp/Listing/Names.antt =====
-- src/ssh/scp.rs, `get_name_and_link`: the name and the target that `ls` prints of a link.
use remotefs_rs_ssh.Prelude.{ℕ, ◌≡◌, ◌≢◌, refl, false, some, [], ◌∷◌, ◌++◌, All, arith}
use remotefs_rs_ssh.Text.{Text, codes, starts_with, split_skip, split_text}
use remotefs_rs_ssh.Ssh.Scp.Listing.{listed, get_name_and_link}

-- No `>` stands in the text.
abbrev pub NoArrow : Text → Type 0
NoArrow s = All (λ c. c ≢ b'>') s

abbrev pub arrow : Text
arrow = codes " -> "

not_arrow :
    (c : ℕ) (s t : Text) → NoArrow (c ∷ s) → starts_with ((c ∷ s) ++ (arrow ++ t)) arrow ≡ false
unfolding starts_with
not_arrow c [] t h = ground arith
not_arrow c (d ∷ []) t h = ground arith
not_arrow c (d ∷ e ∷ s) t h = ground (arith, h.1.1.0)

not_arrow_alone : (c : ℕ) (s : Text) → NoArrow (c ∷ s) → starts_with (c ∷ s) arrow ≡ false
unfolding starts_with
not_arrow_alone c [] h = ground arith
not_arrow_alone c (d ∷ []) h = ground arith
not_arrow_alone c (d ∷ e ∷ s) h = ground (arith, h.1.1.0)

split-alone : (s : Text) → NoArrow s → split_skip arrow 0 s ≡ s ∷ []
unfolding split_skip
split-alone [] h = refl
split-alone (c ∷ s) h = rw (not_arrow_alone c s h, split-alone s h.1)

split-arrow :
    (s t : Text) → NoArrow s → NoArrow t → split_skip arrow 0 (s ++ (arrow ++ t)) ≡ s ∷ t ∷ []
unfolding split_skip starts_with
split-arrow [] t h k = rw (split-alone t k)
split-arrow (c ∷ s) t h k = rw (not_arrow c s t h, split-arrow s t h.1 k)

-- The name and the target of a link, printed with an arrow between them, are read back, where `>`
-- stands in neither.
pub get_name_and_link-arrow :
    (name target : Text)
    → NoArrow name
    → NoArrow target
    → get_name_and_link (name ++ (arrow ++ target)) ≡ listed (name, some target)
unfolding get_name_and_link split_text
get_name_and_link-arrow name target h k = rw (split-arrow name target h k)
