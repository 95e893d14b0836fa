-- ===== src/Exec/Calm.antt =====
-- Actions that do not panic where a condition on the state holds, and keep that condition: one rule
-- for each way to build an action.
use remotefs_rs_ssh.Prelude.{◌≡◌, refl, Bool, true, false, if◌then◌else◌}
use remotefs_rs_ssh.Remotefs.{RemoteError}
use remotefs_rs_ssh.Exec.{
  Outcome, ok, err, panic, diverged, Exec, pure, raise, diverges, gets, modify, branch, handle,
  guard, ◌>>=◌, steps,
}

abbrev pub NoPanic : {A : Type 0} → Outcome A → Type 0
NoPanic panic = ⊥
NoPanic _ = Unit

module _ {S : Type 0} (P : S → Type 0) where
  pub record Calm {A : Type 0} (m : Exec S A) : Type 0 where
    pub at : (s : S) → P s → NoPanic (m s).0 × P (m s).1

  pub Calm-pure : {A : Type 0} (a : A) → Calm (pure a)
  unfolding steps
  Calm-pure a = record { at = λ s h. (tt, h) }

  pub Calm-raise : {A : Type 0} (e : RemoteError) → Calm (raise {A = A} e)
  unfolding steps
  Calm-raise e = record { at = λ s h. (tt, h) }

  pub Calm-diverges : {A : Type 0} → Calm (diverges {A = A})
  unfolding steps
  Calm-diverges = record { at = λ s h. (tt, h) }

  pub Calm-gets : {A : Type 0} (f : S → A) → Calm (gets f)
  unfolding steps
  Calm-gets f = record { at = λ s h. (tt, h) }

  pub Calm-modify : (f : S → S) → ((s : S) → P s → P (f s)) → Calm (modify f)
  unfolding steps
  Calm-modify f k = record { at = λ s h. (tt, k s h) }

  pub Calm-guard : (b : Bool) (e : RemoteError) → Calm (guard b e)
  unfolding steps
  Calm-guard true e = record { at = λ s h. (tt, h) }
  Calm-guard false e = record { at = λ s h. (tt, h) }

  pub Calm-if :
      {A : Type 0} (b : Bool) (m n : Exec S A) → Calm m → Calm n → Calm (if b then m else n)
  Calm-if true m n km kn = km
  Calm-if false m n km kn = kn

  pub Calm-handle :
      {A B : Type 0} (m : Exec S A) (f : A → Exec S B) (g : RemoteError → Exec S B)
      → Calm m
      → ((a : A) → Calm (f a))
      → ((e : RemoteError) → Calm (g e))
      → Calm (handle m f g)
  unfolding steps
  Calm-handle {A} {B} m f g km kf kg = record {
    at = λ s h. let k = km.at s h in go (m s).0 (m s).1 k.0 k.1;
  }
    where
      go :
          (r : Outcome A) (t : S)
          → NoPanic r
          → P t
          → NoPanic (branch f g r t).0 × P (branch f g r t).1
      go (ok a) t n h = (kf a).at t h
      go (err e) t n h = (kg e).at t h
      go panic t n h = absurd n
      go diverged t n h = (tt, h)

  pub Calm-bind :
      {A B : Type 0} (m : Exec S A) (f : A → Exec S B)
      → Calm m
      → ((a : A) → Calm (f a))
      → Calm (m >>= f)
  unfolding steps
  Calm-bind m f km kf = Calm-handle m f raise km kf Calm-raise

  -- What follows only has to be calm for the values that the action can return.
  pub Calm-bind_knowing :
      {A B : Type 0} (Q : A → Type 0) (m : Exec S A) (f : A → Exec S B)
      → Calm m
      → ((s : S) (a : A) → (m s).0 ≡ ok a → Q a)
      → ((a : A) → Q a → Calm (f a))
      → Calm (m >>= f)
  unfolding steps
  Calm-bind_knowing {A} {B} Q m f km known kf = record {
    at = λ s h. let k = km.at s h in go (m s).0 (m s).1 (known s) k.0 k.1;
  }
    where
      go :
          (r : Outcome A) (t : S)
          → ((a : A) → r ≡ ok a → Q a)
          → NoPanic r
          → P t
          → NoPanic (branch f raise r t).0 × P (branch f raise r t).1
      go (ok a) t q n h = (kf a (q a refl)).at t h
      go (err e) t q n h = (tt, h)
      go panic t q n h = absurd n
      go diverged t q n h = (tt, h)

pub ruleset calm_rules =
    (Calm-pure, Calm-raise, Calm-diverges, Calm-gets, Calm-guard, Calm-if, Calm-handle, Calm-bind)
