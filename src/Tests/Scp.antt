-- ===== src/Tests/Scp.antt =====
-- Concrete runs of src/ssh/scp.rs on the scripted host.
use remotefs_rs_ssh.Prelude.{◌≡◌, refl, ap, false, some, inr}
use remotefs_rs_ssh.Text.{codes}
use remotefs_rs_ssh.Remotefs.{new, not_connected}
use remotefs_rs_ssh.Exec.{err}
use remotefs_rs_ssh.Ssh.Opts
use remotefs_rs_ssh.Ssh.Scp.Client.{Scp}
use remotefs_rs_ssh.Ssh.Scp.Calls.{remove_file, perform}
use remotefs_rs_ssh.Ssh.Scp.Calls.Offline.{perform_offline}
use remotefs_rs_ssh.Ssh.Scp.Calls.Keeps.{client-perform_kept}
use remotefs_rs_ssh.Tests.Script.{scripted, plain_crates, quiet}

abbrev opened : Scp scripted
opened = record {
  client = record {
    session = some tt;
    wrkdir = codes "/home";
    opts = Opts.new tt (codes "server");
  };
  world = quiet;
}

abbrev closed : Scp scripted
closed = record opened { world = record quiet { live = false } }

perform_offline_example :
    perform plain_crates scripted (remove_file (codes "/tmp/a")) closed
    ≡ (err (new not_connected), closed)
perform_offline_example =
    perform_offline plain_crates scripted closed refl (remove_file (codes "/tmp/a")) tt

client-perform_kept_example :
    (perform plain_crates scripted (remove_file (codes "/tmp/a")) closed).1.client ≡ closed.client
client-perform_kept_example =
    client-perform_kept plain_crates scripted (remove_file (codes "/tmp/a")) closed
      (inr (new not_connected, ap (λ r. r.0) perform_offline_example))
