-- ===== src/Exec/Keeps.antt =====
-- A part of the state that an action leaves as it was, whatever its outcome: one rule for each way
-- to build an action.
use remotefs_rs_ssh.Prelude.{◌≡◌, refl, ◌∙◌, Bool, true, false, Option, none, some, if◌then◌else◌}
use remotefs_rs_ssh.Remotefs.{RemoteError}
use remotefs_rs_ssh.Exec.{
  Outcome, ok, err, panic, diverged, Exec, pure, raise, panics, gets, modify, branch, handle,
  unwrap, guard, ◌>>=◌, ◌>>◌, steps,
}

module _ {S P : Type 0} (part : S → P) where
  pub record Keeps {A : Type 0} (m : Exec S A) : Type 0 where
    pub at : (s : S) → part (m s).1 ≡ part s

  pub Keeps-pure : {A : Type 0} (a : A) → Keeps (pure a)
  unfolding steps
  Keeps-pure a = record { at = λ s. refl }

  pub Keeps-raise : {A : Type 0} (e : RemoteError) → Keeps (raise {A = A} e)
  unfolding steps
  Keeps-raise e = record { at = λ s. refl }

  pub Keeps-panics : {A : Type 0} → Keeps (panics {A = A})
  unfolding steps
  Keeps-panics = record { at = λ s. refl }

  pub Keeps-gets : {A : Type 0} (f : S → A) → Keeps (gets f)
  unfolding steps
  Keeps-gets f = record { at = λ s. refl }

  pub Keeps-unwrap : {A : Type 0} (o : Option A) → Keeps (unwrap o)
  unfolding steps
  Keeps-unwrap none = record { at = λ s. refl }
  Keeps-unwrap (some a) = record { at = λ s. refl }

  pub Keeps-guard : (b : Bool) (e : RemoteError) → Keeps (guard b e)
  unfolding steps
  Keeps-guard true e = record { at = λ s. refl }
  Keeps-guard false e = record { at = λ s. refl }

  pub Keeps-if :
      {A : Type 0} (b : Bool) (m n : Exec S A) → Keeps m → Keeps n → Keeps (if b then m else n)
  Keeps-if true m n km kn = km
  Keeps-if false m n km kn = kn

  pub Keeps-handle :
      {A B : Type 0} (m : Exec S A) (f : A → Exec S B) (g : RemoteError → Exec S B)
      → Keeps m
      → ((a : A) → Keeps (f a))
      → ((e : RemoteError) → Keeps (g e))
      → Keeps (handle m f g)
  unfolding steps
  Keeps-handle {A} m f g km kf kg = record { at = λ s. go (m s).0 (m s).1 ∙ km.at s }
    where
      go : (r : Outcome A) (t : S) → part (branch f g r t).1 ≡ part t
      go (ok a) t = (kf a).at t
      go (err e) t = (kg e).at t
      go panic t = refl
      go diverged t = refl

  pub Keeps-bind :
      {A B : Type 0} (m : Exec S A) (f : A → Exec S B)
      → Keeps m
      → ((a : A) → Keeps (f a))
      → Keeps (m >>= f)
  unfolding steps
  Keeps-bind m f km kf = Keeps-handle m f raise km kf Keeps-raise

module _ {S P : Type 0} (part : S → P) where
  pub Keeps-then :
      {B : Type 0} (m : Exec S (Unit {0})) (k : Exec S B)
      → Keeps part m
      → Keeps part k
      → Keeps part (m >> k)
  Keeps-then m k km kk = Keeps-bind part m (λ _. k) km (λ _. kk)

  pub Keeps-modify : (f : S → S) → ((s : S) → part (f s) ≡ part s) → Keeps part (modify f)
  unfolding steps
  Keeps-modify f h = record { at = h }

pub ruleset keeps_rules = (
  Keeps-pure, Keeps-raise, Keeps-panics, Keeps-gets, Keeps-unwrap, Keeps-guard, Keeps-if,
  Keeps-handle, Keeps-bind,
)
