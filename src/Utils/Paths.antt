-- ===== src/Utils/Paths.antt =====
-- src/utils/path.rs: the paths that `absolutize` gives.
use remotefs_rs_ssh.Prelude.{
  ◌≡◌, refl, sym, ap, ◌∙◌, ◌++◌, append_assoc, ==_iff, true, false, [], ◌∷◌, Bool-cases, inl, inr,
  arith, ◌⊎◌,
}
use remotefs_rs_ssh.Text.{Text}
use remotefs_rs_ssh.FilePath.{is_absolute, push, ends_with_slash, slash}
use remotefs_rs_ssh.Utils.{absolutize, resolve}

absolutize_kept : (w p : Text) → is_absolute p ≡ true → absolutize w p ≡ p
unfolding absolutize
absolutize_kept w p h = rw h

push-is_absolute :
    (w p : Text) → is_absolute w ≡ true → is_absolute p ≡ false → is_absolute (push w p) ≡ true
unfolding push
push-is_absolute [] p h k = ground (arith, h)
push-is_absolute (c ∷ w) p h k = rw k h

absolutize-push : (w p : Text) → is_absolute p ≡ false → absolutize w p ≡ push w p
unfolding absolutize resolve push
absolutize-push w p h = rw h

pub absolutize-is_absolute :
    (w p : Text) → is_absolute w ≡ true → is_absolute (absolutize w p) ≡ true
unfolding absolutize
absolutize-is_absolute w p h = elim (Bool-cases (is_absolute p)) [
  | inl k ↦ rw (absolutize_kept w p k) k
  | inr k ↦ rw (absolutize-push w p k) (push-is_absolute w p h k)
]

-- A second `absolutize` of the result changes nothing, from whatever directory.
pub absolutize-absolutize :
    (w v p : Text)
    → (is_absolute w ≡ true) ⊎ (is_absolute p ≡ true)
    → absolutize v (absolutize w p) ≡ absolutize w p
absolutize-absolutize w v p (inl h) =
    absolutize_kept v (absolutize w p) (absolutize-is_absolute w p h)
absolutize-absolutize w v p (inr h) = rw (absolutize_kept w p h) (absolutize_kept v p h)

-- A text that ends with a slash, without it.
without_slash : (w : Text) → ends_with_slash w ≡ true → (front : Text) × (front ++ slash ∷ [] ≡ w)
unfolding ends_with_slash
without_slash [] h = ground (arith, h)
without_slash (c ∷ []) h = ([], ap (λ d. d ∷ []) (sym ((==_iff c slash).0 h)))
without_slash (c ∷ d ∷ w) h = let f = without_slash (d ∷ w) h in (c ∷ f.0, ap (λ t. c ∷ t) f.1)

-- Directory, slash and path, where the directory may be written with a final slash.
pub record Joined (w p r : Text) : Type 0 where
  pub front : Text
  pub joined : r ≡ front ++ slash ∷ p
  pub directory : (front ≡ w) ⊎ (front ++ slash ∷ [] ≡ w)

-- What a path is from a directory.
pub record Resolved (w p r : Text) : Type 0 where
  pub rooted : is_absolute r ≡ true
  pub kept : is_absolute p ≡ true → r ≡ p
  pub below : is_absolute p ≡ false → Joined w p r
  pub stable : (v : Text) → absolutize v r ≡ r

push-Joined : (w p : Text) → is_absolute w ≡ true → is_absolute p ≡ false → Joined w p (push w p)
unfolding push
push-Joined [] p h k = ground (arith, h)
push-Joined (c ∷ w) p h k = elim (Bool-cases (ends_with_slash (c ∷ w))) [
  | inl final ↦
      let f = without_slash (c ∷ w) final in
      record {
        front = f.0;
        joined = rw (k, final) (ap (λ t. t ++ p) (sym f.1) ∙ append_assoc f.0 (slash ∷ []) p);
        directory = inr f.1;
      }
  | inr none_final ↦ record { front = c ∷ w; joined = rw (k, none_final); directory = inl refl }
]

-- From an absolute working directory `absolutize` gives an absolute path: an absolute path as it
-- is, and another one behind the working directory and one slash, which is not doubled where the
-- directory already ends in one. A second `absolutize` of the result, from whatever directory,
-- changes nothing.
pub absolutize-Resolved : (w p : Text) → is_absolute w ≡ true → Resolved w p (absolutize w p)
absolutize-Resolved w p h = record {
  rooted = absolutize-is_absolute w p h;
  kept = absolutize_kept w p;
  below = λ k. rw (absolutize-push w p k) (push-Joined w p h k);
  stable = λ v. absolutize-absolutize w v p (inl h);
}
