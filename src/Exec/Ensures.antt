-- ===== src/Exec/Ensures.antt =====
-- What holds of the result and the state of an action that returns `Ok`.
use remotefs_rs_ssh.Prelude.{◌≡◌, refl, arith}
use remotefs_rs_ssh.Exec.{Outcome, ok, err, panic, diverged, Exec, branch, ◌>>=◌, raise, steps}

module _ {S : Type 0} where
  -- A chain that returns has returned from its first part.
  pub record Returned {A B : Type 0} (m : Exec S A) (f : A → Exec S B) (s : S) : Type 0 where
    pub value : A
    pub returns : (m s).0 ≡ ok value
    pub rest : (m >>= f) s ≡ f value (m s).1

  pub bind-Returned :
      {A B : Type 0} (m : Exec S A) (f : A → Exec S B) (s : S) (b : B)
      → ((m >>= f) s).0 ≡ ok b
      → Returned m f s
  unfolding steps
  bind-Returned {A} {B} m f s b = go (m s).0 (m s).1 refl
    where
      go :
          (r : Outcome A) (t : S)
          → (m s).0 ≡ r
          → (branch f raise (m s).0 (m s).1).0 ≡ ok b
          → Returned m f s
      go (ok a) t e h = record { value = a; returns = e; rest = rw e }
      go (err x) t e h = ground (arith, (rw e at h))
      go panic t e h = ground (arith, (rw e at h))
      go diverged t e h = ground (arith, (rw e at h))

module _ {S B : Type 0} (Q : B → S → Type 0) where
  pub record Ensures (m : Exec S B) : Type 0 where
    pub at : (s : S) (b : B) → (m s).0 ≡ ok b → Q b (m s).1

  -- What the last part ensures on the results of the first, the chain ensures.
  pub Ensures-bind_result :
      {A : Type 0} (m : Exec S A) (f : A → Exec S B)
      → ((s : S) (a : A) → (m s).0 ≡ ok a → Ensures (f a))
      → Ensures (m >>= f)
  Ensures-bind_result m f h = record {
    at = λ s b e.
        let r = bind-Returned m f s b e in
        rw r.rest ((h s r.value r.returns).at (m s).1 b (rw r.rest at e));
  }

  pub Ensures-bind :
      {A : Type 0} (m : Exec S A) (f : A → Exec S B) → ((a : A) → Ensures (f a)) → Ensures (m >>= f)
  Ensures-bind m f h = Ensures-bind_result m f (λ s a e. h a)
