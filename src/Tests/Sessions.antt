-- ===== src/Tests/Sessions.antt =====
-- Sessions of both clients on the scripted host, from `connect` to `disconnect`, and a command.
use remotefs_rs_ssh.Prelude.{◌≡◌, refl, true, false, none, some, inr, [], ◌∷◌, ◌++◌, arith}
use remotefs_rs_ssh.Text.{codes, newline, is_whitespace}
use remotefs_rs_ssh.Text.Number.{decimal}
use remotefs_rs_ssh.Remotefs.{new, not_connected}
use remotefs_rs_ssh.Exec.{ok, err}
use remotefs_rs_ssh.Foreign.{world_steps}
use remotefs_rs_ssh.Ssh.Opts
use remotefs_rs_ssh.Ssh.Opts.{SshOpts}
use remotefs_rs_ssh.Ssh.Config.{
  try_from, from_params, resolve_connection_attempts, resolve_connection_timeout,
}
use remotefs_rs_ssh.Ssh.Commons.Connect.{
  try_attempts, try_addresses, tcp_connect, set_algo_prefs, set_methods, authenticate,
  session_auth_with_password, stored_key, connect as connect_session,
}
use remotefs_rs_ssh.Ssh.Commons.Shell.{perform_shell_cmd}
use remotefs_rs_ssh.Ssh.Commons.Shell.Run.{exec_line}
use remotefs_rs_ssh.Ssh.Scp.Client
use remotefs_rs_ssh.Ssh.Scp.Client.{Scp}
use remotefs_rs_ssh.Ssh.Scp.Ops.{exec}
use remotefs_rs_ssh.Ssh.Scp.Ops.RemoteExec.{exec-clean}
use remotefs_rs_ssh.Ssh.Scp.Calls
use remotefs_rs_ssh.Ssh.Scp.Calls.Sessions.{connect-opened, perform-disconnect}
use remotefs_rs_ssh.Ssh.Sftp.Client as SftpClient
use remotefs_rs_ssh.Ssh.Sftp.Client.{SftpState}
use remotefs_rs_ssh.Ssh.Sftp.Calls as SftpCalls
use remotefs_rs_ssh.Ssh.Sftp.Calls.Sessions.{sftp_perform-disconnect}
use remotefs_rs_ssh.Tests.Script.{Stage, scripted, plain_crates, quiet}
use remotefs_rs_ssh.Tests.Paths.{srv-Printed}

abbrev opts : SshOpts (Unit {0})
opts = Opts.with_password (Opts.new tt (codes "server")) (codes "secret")

-- A server that has not seen the client, and the server once the client is in.
abbrev waiting : Stage
waiting = record quiet { live = false; outputs = codes "/srv\n" ∷ [] }

abbrev entered : Stage
entered = record waiting { live = true }

abbrev told : Stage
told = record entered { outputs = []; sent = codes "pwd" ∷ [] }

abbrev unconnected : Scp scripted
unconnected = record { client = Client.new_client scripted opts; world = waiting }

sets_up : connect_session scripted opts waiting ≡ (ok tt, entered)
unfolding connect_session try_from from_params resolve_connection_attempts
    resolve_connection_timeout try_attempts try_addresses tcp_connect set_algo_prefs set_methods
    authenticate session_auth_with_password stored_key world_steps
sets_up = refl

tells :
    perform_shell_cmd scripted tt (codes "pwd") entered ≡ (ok (codes "/srv" ++ newline ∷ []), told)
unfolding perform_shell_cmd world_steps
tells = refl

connect-opened_example : Client.connect scripted unconnected ≡ (
  ok none,
  record {
    client = record { session = some tt; wrkdir = codes "/srv"; opts = opts };
    world = told;
  },
)
connect-opened_example =
    connect-opened plain_crates scripted unconnected tt (codes "/srv") entered told sets_up tells
      srv-Printed

abbrev working : Scp scripted
working = record {
  client = record { session = some tt; wrkdir = codes "/srv"; opts = opts };
  world = record quiet { outputs = codes "hello\n3\n" ∷ [] };
}

leaves : (Client.disconnect scripted working).0 ≡ ok tt
unfolding Client.disconnect world_steps
leaves = refl

perform-disconnect_example :
    Calls.perform plain_crates scripted
      (Calls.list_dir (codes "/tmp"))
      (Client.disconnect scripted working).1
    ≡ (err (new not_connected), (Client.disconnect scripted working).1)
perform-disconnect_example =
    perform-disconnect plain_crates scripted working (Calls.list_dir (codes "/tmp")) leaves tt

abbrev hello : Stage
hello = record quiet { sent = exec_line (codes "/srv") (codes "hi") ∷ [] }

greets :
    perform_shell_cmd scripted tt (exec_line (codes "/srv") (codes "hi")) working.world
    ≡ (ok (codes "hello\n" ++ (decimal 3 ++ newline ∷ [])), hello)
unfolding perform_shell_cmd decimal world_steps
greets = refl

exec-clean_example :
    exec plain_crates scripted (codes "hi") working
    ≡ (ok (3, codes "hello\n"), record working { world = hello })
unfolding is_whitespace
exec-clean_example =
    exec-clean plain_crates scripted tt (codes "hi") (codes "hello\n") 3 working hello refl refl
      greets (inr (b'h', codes "ello", refl, refl)) (omega arith)

abbrev sftp_unconnected : SftpState scripted
sftp_unconnected = record { client = SftpClient.new_client scripted opts; world = waiting }

abbrev sftp_working : SftpState scripted
sftp_working = record {
  client = record { session = some tt; sftp = some tt; wrkdir = codes "/home"; opts = opts };
  world = quiet;
}

sftp_leaves : (SftpClient.disconnect scripted sftp_working).0 ≡ ok tt
unfolding SftpClient.disconnect world_steps
sftp_leaves = refl

sftp_perform-disconnect_example :
    SftpCalls.perform plain_crates scripted 8 8
      (SftpCalls.exists (codes "/tmp"))
      (SftpClient.disconnect scripted sftp_working).1
    ≡ (err (new not_connected), (SftpClient.disconnect scripted sftp_working).1)
sftp_perform-disconnect_example =
    sftp_perform-disconnect plain_crates scripted 8 8 sftp_working (SftpCalls.exists (codes "/tmp"))
      sftp_leaves tt
