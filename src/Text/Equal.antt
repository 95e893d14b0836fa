-- ===== src/Text/Equal.antt =====
-- Equality of strings, decided.
use remotefs_rs_ssh.Prelude.{◌≡◌, refl, true, [], ◌∷◌, arith}
use remotefs_rs_ssh.Text.{Text, text_eq}

pub text_eq-≡ : (s t : Text) → text_eq s t ≡ true → s ≡ t
unfolding text_eq
text_eq-≡ [] [] h = refl
text_eq-≡ [] (d ∷ t) h = ground (arith, h)
text_eq-≡ (c ∷ s) [] h = ground (arith, h)
text_eq-≡ (c ∷ s) (d ∷ t) h = ground (arith, text_eq-≡ s t)

pub text_eq_refl : (p : Text) → text_eq p p ≡ true
unfolding text_eq
text_eq_refl [] = refl
text_eq_refl (c ∷ p) = ground (arith, text_eq_refl p)
