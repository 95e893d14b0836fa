-- ===== src/Ssh/Sftp/Panics/Transfers.antt =====
-- src/ssh/sftp.rs, panics: the transfers of files.
use remotefs_rs_ssh.Prelude.{ℕ, List, length, ◌≤◌, ◌≡◌, ◌∙◌, arith, inl, inr}
use remotefs_rs_ssh.Text.{Text}
use remotefs_rs_ssh.Remotefs.{Metadata, new_ex, io_error}
use remotefs_rs_ssh.Exec.{Exec, ok}
use remotefs_rs_ssh.Exec.Calm.{NoPanic, Calm, calm_rules}
use remotefs_rs_ssh.Foreign.{on_world, world_steps, call, Reply-cases}
use remotefs_rs_ssh.Host.{Host, Reply, answer}
use remotefs_rs_ssh.Ssh.Stream.Reading
use remotefs_rs_ssh.Ssh.Stream.Reading.{SftpReadStream}
use remotefs_rs_ssh.Ssh.Stream.Writing.{SftpWriteStream}
use remotefs_rs_ssh.Crates.{Crates}
use remotefs_rs_ssh.Ssh.Sftp.Client.{SftpState, is_connected}
use remotefs_rs_ssh.Ssh.Sftp.Files
use remotefs_rs_ssh.Ssh.Sftp.Panics.{Paired, copy_loop-Calm}
use remotefs_rs_ssh.Ssh.Sftp.Panics.Ops.{
  append-Calm, create-Calm, open_read-Calm, stat_paired-Calm, call_paired-Calm,
}

module _ (H : Host) where
  -- What does not panic by the fault of others: the default hooks of the trait, and the loops, since
  -- no stream tells more bytes than it was asked for.
  pub record Dependable : Type 0 where
    pub written : (f : H.RemoteFile) (w : H.World) → NoPanic (H.on_written f w).0
    pub read : (f : H.RemoteFile) (w : H.World) → NoPanic (H.on_read f w).0
    pub remote_fits :
        (f : H.RemoteFile) (n : ℕ) (w : H.World) (chunk : List ℕ)
        → (H.file_read f n w).0 ≡ answer chunk
        → length chunk ≤ n
    pub local_fits :
        (r : H.LocalReader) (n : ℕ) (w : H.World) (chunk : List ℕ)
        → (H.local_read r n w).0 ≡ answer chunk
        → length chunk ≤ n

  -- A call returns what was answered.
  call-fits :
      (f : H.World → Reply (List ℕ) × H.World) (n : ℕ)
      → ((w : H.World) (chunk : List ℕ) → (f w).0 ≡ answer chunk → length chunk ≤ n)
      → (s : SftpState H) (chunk : List ℕ) → (on_world (call (new_ex io_error) f) s).0 ≡ ok chunk
      → length chunk ≤ n
  unfolding world_steps
  call-fits f n h s chunk e = elim (Reply-cases (f s.world).0) [
    | inl (a, k) ↦ h s.world chunk (k ∙ ground (arith, (rw k at e)))
    | inr (t, k) ↦ ground (arith, (rw k at e))
  ]

  pub on_world-Calm :
      {A : Type 0} (m : Exec H.World A)
      → ((w : H.World) → NoPanic (m w).0)
      → Calm (Paired H) (on_world m)
  unfolding world_steps
  on_world-Calm m k = record { at = λ s h. (k s.world, h) }

module _ (C : Crates) (H : Host) where
  abbrev AllPaired : SftpState H → Type 0
  AllPaired = Paired H

  is_connected-Calm : Calm AllPaired (is_connected H)
  unfolding is_connected
  is_connected-Calm = record { at = λ s h. (tt, h) }

  module _ (hooks : Dependable H) (writes rounds : ℕ) where
    send-Calm :
        (r : H.LocalReader) (stream : SftpWriteStream H) (size : ℕ)
        → Calm AllPaired (Files.send C H writes rounds r stream size)
    send-Calm r stream size =
        copy_loop-Calm AllPaired _ _ (λ n. call_paired-Calm C H _ _)
          (λ n. call-fits H (H.local_read r n) n (hooks.local_fits r n))
          (λ bytes. call_paired-Calm C H _ _) writes rounds size 0

    receive-Calm :
        (stream : SftpReadStream H) (d : H.LocalWriter) (size : ℕ)
        → Calm AllPaired (Files.receive C H writes rounds stream d size)
    unfolding Reading.read
    receive-Calm stream d size =
        copy_loop-Calm AllPaired _ _ (λ n. call_paired-Calm C H _ _)
          (λ n. call-fits H (H.file_read stream.file n) n (hooks.remote_fits stream.file n))
          (λ bytes. call_paired-Calm C H _ _) writes rounds size 0

    pub append_file-Calm :
        (p : Text) (m : Metadata C.UnixPex) (r : H.LocalReader)
        → Calm AllPaired (Files.append_file C H writes rounds p m r)
    unfolding Files.append_file
    append_file-Calm p m r =
        search (calm_rules, is_connected-Calm, append-Calm, send-Calm, on_world-Calm, hooks.written)
          depth 16

    pub create_file-Calm :
        (p : Text) (m : Metadata C.UnixPex) (r : H.LocalReader)
        → Calm AllPaired (Files.create_file C H writes rounds p m r)
    unfolding Files.create_file
    create_file-Calm p m r =
        search (calm_rules, is_connected-Calm, create-Calm, send-Calm, on_world-Calm, hooks.written)
          depth 16

    pub open_file-Calm :
        (p : Text) (d : H.LocalWriter) → Calm AllPaired (Files.open_file C H writes rounds p d)
    unfolding Files.open_file
    open_file-Calm p d =
        search
          (
            calm_rules, is_connected-Calm, stat_paired-Calm, open_read-Calm, receive-Calm,
            on_world-Calm, hooks.read,
          )
          depth 16
