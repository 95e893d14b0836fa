-- ===== src/Ssh/Sftp/Transfer/World.antt =====
-- src/ssh/sftp.rs, the copying loop over foreign streams, beside a client.
use remotefs_rs_ssh.Prelude.{
  ℕ, zero, suc, ◌+◌, ◌≡◌, refl, List, [], ◌∷◌, length, drop, ltb, Bool-cases, inl, inr,
}
use remotefs_rs_ssh.Exec.{Exec, Outcome, ok, err, panic, diverged, raise, branch, ◌>>=◌}
use remotefs_rs_ssh.Foreign.{world_steps, State, on_world}
use remotefs_rs_ssh.Ssh.Sftp.Transfer.{write_all, write_chunk, copy_loop, buffer_size}

module _ {C W : Type 0} where
  pub branch-on_world :
      {A B : Type 0} (r : Outcome A) (f : A → Exec (State C W) B) (g : A → Exec W B)
      → ((a : A) (s : State C W) → f a s ≡ on_world (g a) s)
      → (s : State C W) → branch f raise r s ≡ on_world (branch g raise r) s
  unfolding world_steps
  branch-on_world (ok a) f g h s = h a s
  branch-on_world (err e) f g h s = refl
  branch-on_world panic f g h s = refl
  branch-on_world diverged f g h s = refl

  pub bind-on_world :
      {A B : Type 0} (m : Exec (State C W) A) (k : Exec W A)
      → ((s : State C W) → m s ≡ on_world k s)
      → (f : A → Exec (State C W) B) (g : A → Exec W B)
      → ((a : A) (s : State C W) → f a s ≡ on_world (g a) s)
      → (s : State C W) → (m >>= f) s ≡ on_world (k >>= g) s
  unfolding world_steps
  bind-on_world m k hm f g h s = rw (hm s) (branch-on_world (k s.world).0 f g h (on_world k s).1)

module _ {C W : Type 0} (read : ℕ → Exec W (List ℕ)) (write : List ℕ → Exec W ℕ) where
  abbrev read' : ℕ → Exec (State C W) (List ℕ)
  read' n = on_world (read n)

  abbrev write' : List ℕ → Exec (State C W) ℕ
  write' b = on_world (write b)

  write_all-on_world :
      (fuel : ℕ) (bytes : List ℕ) (s : State C W)
      → write_all read' write' fuel bytes s ≡ on_world (write_all read write fuel bytes) s
  unfolding write_all world_steps
  write_all-on_world fuel [] s = refl
  write_all-on_world zero (b ∷ rest) s = refl
  write_all-on_world (suc fuel) (b ∷ rest) s =
      branch-on_world (write (b ∷ rest) s.world).0 _ _
        (λ n t. write_all-on_world fuel (drop n (b ∷ rest)) t)
        (record s { world = (write (b ∷ rest) s.world).1 })

  write_chunk-on_world :
      (fuel : ℕ) (chunk : List ℕ) (s : State C W)
      → write_chunk read' write' fuel chunk s ≡ on_world (write_chunk read write fuel chunk) s
  unfolding write_chunk world_steps
  write_chunk-on_world fuel chunk s = elim (Bool-cases (ltb buffer_size (length chunk))) [
    | inl over ↦ rw over
    | inr fits ↦ rw fits (write_all-on_world fuel chunk s)
  ]

  pub copy_loop-on_world :
      (writes rounds size bytes : ℕ) (s : State C W)
      → copy_loop read' write' writes rounds size bytes s
        ≡ on_world (copy_loop read write writes rounds size bytes) s
  unfolding copy_loop world_steps
  copy_loop-on_world writes zero size bytes s = elim (Bool-cases (ltb bytes size)) [
    | inl more ↦ rw more
    | inr full ↦ rw full
  ]
  copy_loop-on_world writes (suc rounds) size bytes s = elim (Bool-cases (ltb bytes size)) [
    | inl more ↦ rw more (
        bind-on_world (read' buffer_size) (read buffer_size) (λ t. refl) _ _
          (λ chunk t.
            bind-on_world (write_chunk read' write' writes chunk)
              (write_chunk read write writes chunk) (write_chunk-on_world writes chunk) _ _
              (λ _ u. copy_loop-on_world writes rounds size (bytes + length chunk) u) t)
          s)
    | inr full ↦ rw full
  ]
