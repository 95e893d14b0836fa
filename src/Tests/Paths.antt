-- ===== src/Tests/Paths.antt =====
-- Paths, times, attributes and directories at concrete inputs.
use remotefs_rs_ssh.Prelude.{◌≡◌, refl, some, [], ◌∷◌, ◌++◌, arith}
use remotefs_rs_ssh.Text.{quoted, Text, codes, is_whitespace}
use remotefs_rs_ssh.Text.Number.{decimal}
use remotefs_rs_ssh.FilePath.{is_absolute}
use remotefs_rs_ssh.Utils.{absolutize, parse_lstime}
use remotefs_rs_ssh.Utils.Paths.{Resolved, absolutize-Resolved}
use remotefs_rs_ssh.Utils.Times.{parse_lstime-time_of}
use remotefs_rs_ssh.Remotefs.{since}
use remotefs_rs_ssh.Exec.{ok}
use remotefs_rs_ssh.Foreign.{world_steps}
use remotefs_rs_ssh.Ssh.Opts
use remotefs_rs_ssh.Ssh.Commons.Shell.{perform_shell_cmd}
use remotefs_rs_ssh.Ssh.Scp.Client.{Scp}
use remotefs_rs_ssh.Ssh.Scp.Ops.{change_dir}
use remotefs_rs_ssh.Ssh.Scp.Ops.ChangeDir.{Printed, moved, cd_output, change_dir-moved}
use remotefs_rs_ssh.Ssh.Sftp.Ops.{exists}
use remotefs_rs_ssh.Ssh.Sftp.Ops.Existence.{is_answer, exists-is_answer}
use remotefs_rs_ssh.Tests.Script.{Stage, scripted, plain_crates, quiet}
use remotefs_rs_ssh.Tests.Transfers.{start}

absolutize-Resolved_example :
    Resolved (codes "/home") (codes "docs") (absolutize (codes "/home") (codes "docs"))
unfolding is_absolute
absolutize-Resolved_example = absolutize-Resolved (codes "/home") (codes "docs") refl

parse_lstime-time_of_example :
    parse_lstime plain_crates (codes "Nov 5 2018") (codes "%b %d %Y") (codes "%b %d %H:%M") 2026
    ≡ some (some (since 1000 0))
parse_lstime-time_of_example =
    parse_lstime-time_of plain_crates (codes "Nov 5 2018") (codes "%b %d %Y") (codes "%b %d %H:%M")
      2026 1000 refl (omega arith)

exists-is_answer_example :
    (exists plain_crates scripted (codes "a.txt") start).0
    ≡ ok (
        is_answer
          (scripted.sftp_stat tt (absolutize (codes "/home") (codes "a.txt")) start.world).0)
exists-is_answer_example = exists-is_answer plain_crates scripted tt (codes "a.txt") start refl

abbrev at_home : Scp scripted
at_home = record {
  client = record {
    session = some tt;
    wrkdir = codes "/home";
    opts = Opts.new tt (codes "server");
  };
  world = record quiet { outputs = codes "0\n/srv\n" ∷ [] };
}

abbrev cd_line : Text
cd_line =
    codes "cd " ++ (quoted (absolutize (codes "/home") (codes "/srv")) ++ codes "; echo $?; pwd")

abbrev answered : Stage
answered = record quiet { sent = cd_line ∷ [] }

answers :
    perform_shell_cmd scripted tt cd_line at_home.world
    ≡ (ok (cd_output 0 (codes "/srv")), answered)
unfolding perform_shell_cmd decimal world_steps
answers = refl

pub srv-Printed : Printed (codes "/srv")
unfolding is_whitespace
srv-Printed = record {
  front = codes "/sr";
  last = b'v';
  split = refl;
  starts = refl;
  last_solid = refl;
}

change_dir-moved_example :
    change_dir plain_crates scripted (codes "/srv") at_home
    ≡ moved plain_crates scripted
        (absolutize (codes "/home") (codes "/srv"))
        0
        (codes "/srv")
        (record at_home { world = answered })
change_dir-moved_example =
    change_dir-moved plain_crates scripted tt (codes "/srv") at_home 0 (codes "/srv") answered refl
      refl answers srv-Printed
