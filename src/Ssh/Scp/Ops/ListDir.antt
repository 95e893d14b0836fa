-- ===== src/Ssh/Scp/Ops/ListDir.antt =====
-- src/ssh/scp.rs, `list_dir`: a whole listing, as the remote shell prints it.
use remotefs_rs_ssh.Prelude.{◌≡◌, true, some, ◌++◌}
use remotefs_rs_ssh.Text.{Text, codes}
use remotefs_rs_ssh.FilePath.{is_absolute}
use remotefs_rs_ssh.Host.{Host}
use remotefs_rs_ssh.Crates.{Crates}
use remotefs_rs_ssh.Utils.{absolutize}
use remotefs_rs_ssh.Ssh.Scp.Client.{Scp}

-- The line that `list_dir` sends.
abbrev pub list_line : Text → Text
list_line p = codes "unset LANG; ls -la \"" ++ (p ++ codes "/\"")

module _ (C : Crates) (H : Host) (x : H.Session) (s : Scp H) (there : s.client.session ≡ some x)
    (live : H.authenticated x s.world ≡ true) (rooted : is_absolute s.client.wrkdir ≡ true)
    (path : Text) where
  abbrev target : Text
  target = absolutize s.client.wrkdir path
