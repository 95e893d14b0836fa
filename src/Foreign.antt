-- ===== src/Foreign.antt =====
-- Foreign operations as steps of `Exec`, and a client beside the world that it acts on.
use remotefs_rs_ssh.Prelude.{◌≡◌, refl, ◌⊎◌, inl, inr}
use remotefs_rs_ssh.Text.{Text}
use remotefs_rs_ssh.Remotefs.{RemoteError}
use remotefs_rs_ssh.Host.{Reply, answer, failure}
use remotefs_rs_ssh.Exec.{Exec, Outcome, ok, err, steps}

abbrev pub outcome_of {ℓ} : {A : Type ℓ} → (Text → RemoteError) → Reply A → Outcome A
outcome_of e (answer a) = ok a
outcome_of e (failure t) = err (e t)

-- `op.map_err(|t| e(t))?`
unfoldable pub call : {A W : Type 0} → (Text → RemoteError) → (W → Reply A × W) → Exec W A
call e f w = (outcome_of e (f w).0, (f w).1)

-- `reply.map(f)`
abbrev pub map_reply : {A B : Type 0} → (A → B) → Reply A → Reply B
map_reply f (answer a) = answer (f a)
map_reply f (failure t) = failure t

abbrev pub mapped : {A B W : Type 0} → (A → B) → (W → Reply A × W) → W → Reply B × W
mapped f op w = (map_reply f (op w).0, (op w).1)

-- `self`, and everything outside the process.
pub record State (Client World : Type 0) : Type 0 where
  pub client : Client
  pub world : World

-- An operation on the world only.
unfoldable pub on_world : {A C W : Type 0} → Exec W A → Exec (State C W) A
on_world m s = ((m s.world).0, record s { world = (m s.world).1 })

-- Names the foreign steps beside those of `Exec`, for proofs that run them.
unfoldable pub world_steps : Unit {0}
unfolding steps call on_world
world_steps = tt

pub Reply-cases :
    {A : Type 0} (r : Reply A) → ((a : A) × (r ≡ answer a)) ⊎ ((t : Text) × (r ≡ failure t))
Reply-cases (answer a) = inl (a, refl)
Reply-cases (failure t) = inr (t, refl)
