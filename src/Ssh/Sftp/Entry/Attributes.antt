-- ===== src/Ssh/Sftp/Entry/Attributes.antt =====
-- src/ssh/sftp.rs: attributes from the server, and back.
use remotefs_rs_ssh.Prelude.{
  ℕ, ◌≡◌, ◌<◌, ◌^◌, ◌%◌, refl, Option, none, some, option_map, and_then, unwrap_or, arith,
}
use remotefs_rs_ssh.Text.{Text}
use remotefs_rs_ssh.Remotefs.{secs_since_epoch}
use remotefs_rs_ssh.Utils.{epoch_plus}
use remotefs_rs_ssh.Host.{Host, FileStat}
use remotefs_rs_ssh.Crates.{Crates}
use remotefs_rs_ssh.Ssh.Sftp.Entry.{fsentry, metadata_to_filestat}

abbrev pub IsTime : Option ℕ → Type 0
IsTime none = Unit
IsTime (some t) = t < 2 ^ 63

time-back : (t : Option ℕ) → IsTime t → and_then (option_map epoch_plus t) secs_since_epoch ≡ t
time-back none h = refl
time-back (some t) h = ground arith

perm-back :
    (C : Crates)
    → ((n : ℕ) → C.pex_bits (C.pex_from n) ≡ n % 512)
    → (p : Option ℕ) → option_map C.pex_bits (option_map C.pex_from p) ≡ option_map (λ n. n % 512) p
perm-back C law none = refl
perm-back C law (some n) = rw law

-- Where the permissions of remotefs keep nine bits and the times are below 2^63, the attributes of an
-- SFTP entry that is read from a server are written back as they were read, but for a missing size,
-- which is written as 0, and the bits of the mode above the nine, which are gone.
pub metadata_to_filestat-fsentry :
    (C : Crates) (H : Host) (path : Text) (st : FileStat) (link : Option Text)
    → ((n : ℕ) → C.pex_bits (C.pex_from n) ≡ n % 512)
    → IsTime st.atime
    → IsTime st.mtime
    → metadata_to_filestat C (fsentry C H path st link).metadata
      ≡ record st { size = some (unwrap_or st.size 0); perm = option_map (λ n. n % 512) st.perm }
unfolding metadata_to_filestat
metadata_to_filestat-fsentry C H path st link law accessed modified =
    rw (time-back st.atime accessed, time-back st.mtime modified, perm-back C law st.perm)
