-- ===== src/Ssh/Scp/Ops/Root.antt =====
-- src/ssh/scp.rs, `stat` of the root directory.
use remotefs_rs_ssh.Prelude.{◌≡◌, Option, none, some, Bool-cases, inl, inr, arith}
use remotefs_rs_ssh.Text.{Text, codes}
use remotefs_rs_ssh.FilePath.{parent}
use remotefs_rs_ssh.Utils.{absolutize}
use remotefs_rs_ssh.Remotefs.{File, RemoteError, new_ex, protocol_error}
use remotefs_rs_ssh.Exec.{
  Outcome, ok, err, panic, diverged, Exec, branch, handle, raise, steps, ◌>>=◌,
}
use remotefs_rs_ssh.Exec.Ensures.{Ensures, Ensures-bind}
use remotefs_rs_ssh.Host.{Host}
use remotefs_rs_ssh.Crates.{Crates}
use remotefs_rs_ssh.Ssh.Scp.Client.{
  Scp, check_connection, is_connected, session_live, is_directory, run,
}
use remotefs_rs_ssh.Ssh.Scp.Ops.{stat, stat_line, stat_command}

-- An action that does not return `Ok`.
abbrev Fails : {S A : Type 0} → Exec S A → Type 0
Fails m = Ensures (λ a s. ⊥) m

module _ {S A : Type 0} where
  raise-Fails : (e : RemoteError) → Fails (raise {S = S} {A = A} e)
  unfolding steps
  raise-Fails e = record { at = λ s b h. ground (arith, h) }

  handle-Fails :
      {B : Type 0} (m : Exec S B) (f : B → Exec S A) (g : RemoteError → Exec S A)
      → ((b : B) → Fails (f b))
      → ((e : RemoteError) → Fails (g e))
      → Fails (handle m f g)
  unfolding steps
  handle-Fails {B} m f g hf hg = record { at = λ s a h. go (m s).0 (m s).1 a h }
    where
      go : (r : Outcome B) (t : S) (a : A) → (branch f g r t).0 ≡ ok a → ⊥
      go (ok b) t a h = (hf b).at t a h
      go (err e) t a h = (hg e).at t a h
      go panic t a h = ground (arith, h)
      go diverged t a h = ground (arith, h)

module _ (C : Crates) (H : Host) where
  root_line-Fails : (o : Option Text) (line : Text) → o ≡ none → Fails (stat_line C H o line)
  root_line-Fails none line e = raise-Fails _
  root_line-Fails (some p) line e = ground (arith, e)

  -- The part of `stat` behind the check of the connection.
  abbrev asked : Text → Exec (Scp H) (File C.UnixPex)
  asked p = is_directory C H p >>= λ dir.
      handle (run H (stat_command C H dir p)) (stat_line C H (parent p))
        (λ e. raise (new_ex protocol_error (C.display_error e)))

  root_parent : (p : Text) → p ≡ codes "/" → parent p ≡ none
  unfolding parent
  root_parent p e = rw e

  asked-Fails : (p : Text) → p ≡ codes "/" → Fails (asked p)
  asked-Fails p e = Ensures-bind _ _ _ (λ dir.
      handle-Fails _ _ _ (λ line. root_line-Fails (parent p) line (root_parent p e))
        (λ k. raise-Fails _))

  -- Of a path that is resolved to the root directory, the SCP `stat` never returns an entry,
  -- whatever the remote machine answers.
  pub stat_root :
      (path : Text) (s : Scp H) (f : File C.UnixPex)
      → absolutize s.client.wrkdir path ≡ codes "/"
      → ¬ ((stat C H path s).0 ≡ ok f)
  unfolding stat check_connection is_connected steps
  stat_root path s f root h = elim (Bool-cases (session_live H s.client.session s.world)) [
    | inl live ↦ (asked-Fails (absolutize s.client.wrkdir path) root).at s f (rw live at h)
    | inr dead ↦ ground (arith, (rw dead at h))
  ]
