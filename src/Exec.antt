-- ===== src/Exec.antt =====
-- Calls that change a state and return a `RemoteResult`, with `?` as bind. A panic ends the call,
-- and so does a loop that does not end on the fuel given. The state is returned in every case.
pub mod Keeps
pub mod Ensures
pub mod Laws
pub mod Calm
use remotefs_rs_ssh.Prelude.{Bool, true, false, Option, none, some}
use remotefs_rs_ssh.Remotefs.{RemoteError}

pub data Outcome {ℓ} (A : Type ℓ) : Type ℓ where
  ok : A → Outcome A
  err : RemoteError → Outcome A
  panic : Outcome A
  diverged : Outcome A

abbrev pub Exec : Type 0 → Type 0 → Type 0
Exec S A = S → Outcome A × S

module _ {S : Type 0} where
  unfoldable pub pure : {A : Type 0} → A → Exec S A
  pure a s = (ok a, s)

  unfoldable pub raise : {A : Type 0} → RemoteError → Exec S A
  raise e s = (err e, s)

  unfoldable pub panics : {A : Type 0} → Exec S A
  panics s = (panic, s)

  unfoldable pub diverges : {A : Type 0} → Exec S A
  diverges s = (diverged, s)

  -- A result at hand, as `r?`.
  unfoldable pub lift : {A : Type 0} → Outcome A → Exec S A
  lift r s = (r, s)

  unfoldable pub gets : {A : Type 0} → (S → A) → Exec S A
  gets f s = (ok (f s), s)

  unfoldable pub modify : (S → S) → Exec S (Unit {0})
  modify f s = (ok tt, f s)

  -- What follows a result: `match r { Ok(a) => …, Err(e) => … }`.
  abbrev pub branch :
      {A B : Type 0} → (A → Exec S B) → (RemoteError → Exec S B) → Outcome A → Exec S B
  branch f g (ok a) = f a
  branch f g (err e) = g e
  branch f g panic = panics
  branch f g diverged = diverges

  unfoldable pub handle :
      {A B : Type 0} → Exec S A → (A → Exec S B) → (RemoteError → Exec S B) → Exec S B
  unfolding pure raise panics diverges
  handle m f g s = branch f g (m s).0 (m s).1

  infixl 5 ◌>>=◌ ◌>>◌
  unfoldable pub ◌>>=◌ : {A B : Type 0} → Exec S A → (A → Exec S B) → Exec S B
  unfolding handle
  m >>= f = handle m f raise

  abbrev pub ◌>>◌ : {B : Type 0} → Exec S (Unit {0}) → Exec S B → Exec S B
  m >> k = m >>= λ _. k

  -- `opt.unwrap()`
  unfoldable pub unwrap : {A : Type 0} → Option A → Exec S A
  unfolding pure panics
  unwrap none = panics
  unwrap (some a) = pure a

  -- `m.map_err(f)`
  abbrev pub map_err : {A : Type 0} → (RemoteError → RemoteError) → Exec S A → Exec S A
  map_err f m = handle m pure (λ e. raise (f e))

  -- `m.ok().unwrap_or(d)`
  abbrev pub ok_or : {A : Type 0} → A → Exec S A → Exec S A
  ok_or d m = handle m pure (λ _. pure d)

  -- A result that is not used.
  abbrev pub discard : {A : Type 0} → Exec S A → Exec S (Unit {0})
  discard m = m >>= λ _. pure tt

  -- An error unless the test holds, and `Ok` otherwise.
  unfoldable pub guard : Bool → RemoteError → Exec S (Unit {0})
  unfolding pure raise
  guard true e = pure tt
  guard false e = raise e

-- Names all the steps, for proofs that run them.
unfoldable pub steps : Unit {0}
unfolding pure raise panics diverges lift gets modify handle ◌>>=◌ unwrap guard
steps = tt
