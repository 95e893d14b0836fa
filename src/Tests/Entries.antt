-- ===== src/Tests/Entries.antt =====
-- A directory with a file and a link, as src/ssh/sftp.rs lists it.
use remotefs_rs_ssh.Prelude.{none, some, List, [], ◌∷◌, unwrap_or, ◌==◌}
use remotefs_rs_ssh.Text.{Text, codes}
use remotefs_rs_ssh.Host.{Host, FileStat}
use remotefs_rs_ssh.Ssh.Opts
use remotefs_rs_ssh.Ssh.Sftp.Client.{SftpState}
use remotefs_rs_ssh.Tests.Script.{scripted, quiet}

-- The names with the permissions 0o777 are links.
abbrev linking : Host
linking = record scripted { stat_is_symlink = λ st. unwrap_or st.perm 0 == 511 }

abbrev attributes : FileStat
attributes = record {
  size = some 4;
  uid = some 0;
  gid = some 5;
  perm = some 420;
  atime = some 7;
  mtime = some 8;
}

abbrev listing : List (Text × FileStat)
listing =
    (codes "/home/a", attributes)
    ∷ (codes "/home/b", record attributes { perm = some 511; size = none })
    ∷ []

abbrev opened : SftpState linking
opened = record {
  client = record {
    session = some tt;
    sftp = some tt;
    wrkdir = codes "/";
    opts = Opts.new tt (codes "server");
  };
  world = record quiet { files = listing };
}
