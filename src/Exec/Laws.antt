-- ===== src/Exec/Laws.antt =====
-- Equations between actions.
use remotefs_rs_ssh.Prelude.{◌≡◌, refl}
use remotefs_rs_ssh.Remotefs.{RemoteError}
use remotefs_rs_ssh.Exec.{
  Outcome, ok, err, panic, diverged, Exec, handle, branch, raise, pure, ◌>>=◌, steps,
}

module _ {S A B : Type 0} where
  -- Equal continuations may stand for each other.
  pub handle_cong :
      (m : Exec S A) (f f' : A → Exec S B) (g g' : RemoteError → Exec S B)
      → ((a : A) (s : S) → f a s ≡ f' a s)
      → ((e : RemoteError) (s : S) → g e s ≡ g' e s)
      → (s : S) → handle m f g s ≡ handle m f' g' s
  unfolding handle
  handle_cong m f f' g g' hf hg s = go (m s).0 (m s).1
    where
      go : (r : Outcome A) (t : S) → branch f g r t ≡ branch f' g' r t
      go (ok a) t = hf a t
      go (err e) t = hg e t
      go panic t = refl
      go diverged t = refl

  -- What follows both ways of going on may follow each.
  pub handle_bind :
      {D : Type 0} (m : Exec S A) (f : A → Exec S B) (g : RemoteError → Exec S B) (k : B → Exec S D)
      (s : S)
      → (handle m f g >>= k) s ≡ handle m (λ a. f a >>= k) (λ e. g e >>= k) s
  unfolding steps
  handle_bind {D} m f g k s = go (m s).0 (m s).1
    where
      go :
          (r : Outcome A) (t : S)
          → branch k raise (branch f g r t).0 (branch f g r t).1
            ≡ branch (λ a. handle (f a) k raise) (λ e. handle (g e) k raise) r t
      go (ok a) t = refl
      go (err e) t = refl
      go panic t = refl
      go diverged t = refl

  pub pure_bind : (a : A) (f : A → Exec S B) (s : S) → (pure a >>= f) s ≡ f a s
  unfolding steps
  pure_bind a f s = refl
