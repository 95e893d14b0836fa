-- ===== src/Ssh/Sftp/Server/Contract.antt =====
-- src/ssh/sftp.rs, abstractly: what the client relies on of an SFTP server.
use remotefs_rs_ssh.Prelude.{ℕ, ◌≡◌, true, false}
use remotefs_rs_ssh.Text.{Text}
use remotefs_rs_ssh.Host.{Host, Reply, FileStat, answer, failure}
use remotefs_rs_ssh.Ssh.Sftp.Server.{
  folder, link, Message, unlink, rmdir, mkdir, make_link, rename, set_attributes, open_file, View,
  Unlinked, DirRemoved, Made, Moved, OpenedFile, SameNodes, append_flags, create_flags,
}

-- A server with files that nobody else changes, over a connection that holds. What it answers to a
-- message has the effect that OpenSSH gives it; what it refuses changes nothing; neither does `stat`
-- or `readlink`.
module _ (H : Host) (session : H.Session) (x : H.Sftp) where
  open H use {World}

  pub record Does {Entry A : Type 0} (view : World → View Entry) (r : Reply A × World) (w : World)
      (P Q : View Entry → Type 0) : Type 0 where
    pub live : H.authenticated session r.1 ≡ H.authenticated session w
    pub on_answer : (a : A) → r.0 ≡ answer a → P (view r.1)
    pub on_failure : (text : Text) → r.0 ≡ failure text → Q (view r.1)

  -- What an answer and a refusal of a message tell of the files before and after.
  abbrev pub Answered :
      {Entry : Type 0}
      → Message
      → (View Entry → View Entry → Type 0)
      → View Entry
      → View Entry
      → Type 0
  Answered m P t u = (t.denied m ≡ false) × P t u

  abbrev pub Refused : {Entry : Type 0} → Message → View Entry → View Entry → Type 0
  Refused m t u = (t.denied m ≡ true) × (u ≡ t)

  abbrev pub Obeys :
      {Entry A : Type 0}
      → (World → View Entry)
      → Message
      → Reply A × World
      → World
      → (View Entry → View Entry → Type 0)
      → Type 0
  Obeys view m r w P = Does view r w (Answered m P (view w)) (Refused m (view w))

  pub record Server : Type 1 where
    pub Entry : Type 0
    pub view : World → View Entry
    pub stat_law :
        (p : Text) (w : World)
        → Does view
            (H.sftp_stat x p w)
            w
            (λ u. ((view w).shown p ≡ true) × (u ≡ view w))
            (λ u. ((view w).shown p ≡ false) × (u ≡ view w))
    pub readlink_law :
        (p : Text) (w : World)
        → Does view (H.sftp_readlink x p w) w (λ u. u ≡ view w) (λ u. u ≡ view w)
    pub setstat_law :
        (p : Text) (st : FileStat) (w : World)
        → Obeys view (set_attributes p st) (H.sftp_setstat x p st w) w SameNodes
    pub unlink_law :
        (p : Text) (w : World)
        → Obeys view (unlink p) (H.sftp_unlink x p w) w (λ t u. Unlinked t u p)
    pub rmdir_law :
        (p : Text) (w : World)
        → Obeys view (rmdir p) (H.sftp_rmdir x p w) w (λ t u. DirRemoved t u p)
    pub mkdir_law :
        (p : Text) (mode : ℕ) (w : World)
        → Obeys view (mkdir p mode) (H.sftp_mkdir x p mode w) w (λ t u. Made t u p folder)
    pub symlink_law :
        (to p : Text) (w : World)
        → Obeys view (make_link to p) (H.sftp_symlink x to p w) w (λ t u. Made t u p link)
    pub rename_law :
        (src dest : Text) (w : World)
        → Obeys view
            (rename src dest)
            (H.sftp_rename_overwrite x src dest w)
            w
            (λ t u. Moved t u src dest)
    pub append_law :
        (p : Text) (mode : ℕ) (w : World)
        → Obeys view
            (open_file p append_flags mode)
            (H.sftp_open_mode x p append_flags mode w)
            w
            (λ t u. OpenedFile t u p)
    pub create_law :
        (p : Text) (mode : ℕ) (w : World)
        → Obeys view
            (open_file p create_flags mode)
            (H.sftp_open_mode x p create_flags mode w)
            w
            (λ t u. OpenedFile t u p)
