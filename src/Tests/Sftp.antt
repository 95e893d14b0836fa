-- ===== src/Tests/Sftp.antt =====
-- Concrete runs of src/ssh/sftp.rs on the scripted host.
use remotefs_rs_ssh.Prelude.{ℕ, List, ◌≡◌, ◌≤◌, refl, ap, inr, none, some, length, take, arith}
use remotefs_rs_ssh.Text.{codes}
use remotefs_rs_ssh.Remotefs.{new, not_connected}
use remotefs_rs_ssh.Exec.{err, panic}
use remotefs_rs_ssh.Ssh.Opts
use remotefs_rs_ssh.Ssh.Sftp.Client.{SftpState}
use remotefs_rs_ssh.Ssh.Sftp.Calls.{connect, exists, remove_file, mov, perform}
use remotefs_rs_ssh.Ssh.Sftp.Calls.Offline.{perform_disconnected}
use remotefs_rs_ssh.Ssh.Sftp.Calls.Handles.{sftp_client-perform_kept}
use remotefs_rs_ssh.Ssh.Sftp.Calls.History.{Reached, created, called, perform-Reached}
use remotefs_rs_ssh.Host.{answer}
use remotefs_rs_ssh.Ssh.Sftp.Panics.Transfers.{Dependable}
use remotefs_rs_ssh.Tests.Script.{Stage, scripted, plain_crates, quiet, span}
use remotefs_rs_ssh.Tests.Transfers.{length-take_le, span_le}

abbrev closed : SftpState scripted
closed = record {
  client = record {
    session = none;
    sftp = none;
    wrkdir = codes "/";
    opts = Opts.new tt (codes "server");
  };
  world = quiet;
}

abbrev opened : SftpState scripted
opened = record closed { client = record (closed.client) { session = some tt; sftp = some tt } }

perform_disconnected_example :
    perform plain_crates scripted 8 8 (exists (codes "/tmp/a")) closed
    ≡ (err (new not_connected), closed)
perform_disconnected_example =
    perform_disconnected plain_crates scripted 8 8 closed refl refl (exists (codes "/tmp/a")) tt

sftp_client-perform_kept_example :
    (perform plain_crates scripted 8 8 (remove_file (codes "/tmp/a")) closed).1.client
    ≡ closed.client
sftp_client-perform_kept_example =
    sftp_client-perform_kept plain_crates scripted 8 8 (remove_file (codes "/tmp/a")) closed (
      inr (
        new not_connected,
        ap (λ r. r.0)
            (perform_disconnected plain_crates scripted 8 8 closed refl refl
              (remove_file (codes "/tmp/a")) tt),
      ))

-- A client that was connected.
abbrev connected : SftpState scripted
connected = (perform plain_crates scripted 8 8 connect closed).1

-- The streams of the script answer at most what is asked for.
took_fits :
    (n : ℕ) (w : Stage) (chunk : List ℕ)
    → answer (take (span n) w.source) ≡ answer chunk
    → length chunk ≤ n
took_fits n w chunk e =
    let same : take (span n) w.source ≡ chunk = ground (arith, e) in
    omega (arith, ap length same, length-take_le (span n) w.source, span_le n)

connected-Reached : Reached plain_crates scripted connected
connected-Reached = called 8 8 connect closed (created (Opts.new tt (codes "server")) quiet)

scripted-Dependable : Dependable scripted
scripted-Dependable = record {
  written = λ f w. tt;
  read = λ f w. tt;
  remote_fits = λ f n w chunk e. took_fits n w chunk e;
  local_fits = λ r n w chunk e. took_fits n w chunk e;
}

perform-Reached_example :
    ¬ ((perform plain_crates scripted 8 8 (mov (codes "/a") (codes "/b")) connected).0 ≡ panic)
perform-Reached_example =
    perform-Reached plain_crates scripted connected connected-Reached scripted-Dependable 8 8
      (mov (codes "/a") (codes "/b")) tt
