-- ===== src/Ssh/Sftp/Ops/Existence.antt =====
-- src/ssh/sftp.rs, `exists`: what the answer of the server means.
use remotefs_rs_ssh.Prelude.{◌≡◌, Bool, true, false, some, inl, inr, arith}
use remotefs_rs_ssh.Text.{Text}
use remotefs_rs_ssh.Utils.{absolutize}
use remotefs_rs_ssh.Remotefs.{new_ex, no_such_file_or_directory}
use remotefs_rs_ssh.Exec.{Outcome, ok, err, steps}
use remotefs_rs_ssh.Foreign.{world_steps, Reply-cases}
use remotefs_rs_ssh.Host.{Host, Reply, FileStat, answer, failure}
use remotefs_rs_ssh.Crates.{Crates}
use remotefs_rs_ssh.Ssh.Sftp.Client.{SftpState}
use remotefs_rs_ssh.Ssh.Sftp.Entry.{make_fsentry}
use remotefs_rs_ssh.Ssh.Sftp.Ops.{stat, exists}

abbrev pub is_answer : {A : Type 0} → Reply A → Bool
is_answer (answer a) = true
is_answer (failure t) = false

abbrev is_ok : {A : Type 0} → Outcome A → Bool
is_ok (ok a) = true
is_ok _ = false

module _ (C : Crates) (H : Host) where
  make_fsentry-is_ok :
      (x : H.Sftp) (path : Text) (st : FileStat) (s : SftpState H)
      → s.client.sftp ≡ some x
      → is_ok (make_fsentry C H path st s).0 ≡ true
  unfolding make_fsentry world_steps
  make_fsentry-is_ok x path st s there = ground (arith, there)

  stat-answer :
      (x : H.Sftp) (path : Text) (s : SftpState H) (st : FileStat)
      → s.client.sftp ≡ some x
      → (H.sftp_stat x (absolutize s.client.wrkdir path) s.world).0 ≡ answer st
      → is_ok (stat C H path s).0 ≡ true
  unfolding stat world_steps
  stat-answer x path s st there e =
      let p = absolutize s.client.wrkdir path in
      ground (
        arith,
        there,
        e,
        make_fsentry-is_ok x p st (record s { world = (H.sftp_stat x p s.world).1 }) there,
      )

  stat-failure :
      (x : H.Sftp) (path : Text) (s : SftpState H) (t : Text)
      → s.client.sftp ≡ some x
      → (H.sftp_stat x (absolutize s.client.wrkdir path) s.world).0 ≡ failure t
      → (stat C H path s).0 ≡ err (new_ex no_such_file_or_directory t)
  unfolding stat world_steps
  stat-failure x path s t there e = ground (arith, there, e)

  exists_ok :
      (path : Text) (s : SftpState H)
      → is_ok (stat C H path s).0 ≡ true
      → (exists C H path s).0 ≡ ok true
  unfolding exists steps
  exists_ok path s h = ground (arith, h)

  exists_missing :
      (path : Text) (s : SftpState H) (t : Text)
      → (stat C H path s).0 ≡ err (new_ex no_such_file_or_directory t)
      → (exists C H path s).0 ≡ ok false
  unfolding exists steps
  exists_missing path s t h = ground (arith, h)

  -- With an SFTP channel `exists` never fails: it is true where the server answers `stat`, and
  -- false on each of its errors, whatever the error says.
  pub exists-is_answer :
      (x : H.Sftp) (path : Text) (s : SftpState H)
      → s.client.sftp ≡ some x
      → (exists C H path s).0
        ≡ ok (is_answer (H.sftp_stat x (absolutize s.client.wrkdir path) s.world).0)
  exists-is_answer x path s there =
      elim (Reply-cases (H.sftp_stat x (absolutize s.client.wrkdir path) s.world).0) [
        | inl (st, e) ↦ rw e (exists_ok path s (stat-answer x path s st there e))
        | inr (t, e) ↦ rw e (exists_missing path s t (stat-failure x path s t there e))
      ]
