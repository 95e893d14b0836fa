-- ===== src/Tests/Outputs.antt =====
-- Whole outputs of `ls` on the scripted host.
use remotefs_rs_ssh.Prelude.{some, [], ◌∷◌, ◌++◌, List}
use remotefs_rs_ssh.Text.{Text, codes, newline, quoted}
use remotefs_rs_ssh.Text.Lines.{unlines}
use remotefs_rs_ssh.Crates.{Crates}
use remotefs_rs_ssh.Ssh.Opts
use remotefs_rs_ssh.Ssh.Scp.Client.{Scp}
use remotefs_rs_ssh.Ssh.Scp.Listing.Columns.{Entry, columns}
use remotefs_rs_ssh.Tests.Script.{Stage, scripted, plain_crates, quiet}
use remotefs_rs_ssh.Tests.Listing.{current, line}

-- A live client in `/home`, and the answers that its shell has ready.
abbrev answers : List Text → Scp scripted
answers os = record {
  client = record {
    session = some tt;
    wrkdir = codes "/home";
    opts = Opts.new tt (codes "server");
  };
  world = record quiet { outputs = os };
}

abbrev listing : Text
listing = unlines (codes "total 4" ∷ line ∷ [])

abbrev zero_code : Text
zero_code = codes "0" ++ newline ∷ []

abbrev sent : List Text → List Text → Stage
sent os cmds = record quiet { outputs = os; sent = cmds }

abbrev test_line : Text
test_line = (codes "test -e " ++ quoted (codes "/home/srv")) ++ codes "; echo $?"

-- The same link, by the path that is asked for.
abbrev by_path : Entry
by_path = record current { name = codes "/home/current" }

abbrev knows_path : Crates
knows_path = record plain_crates { captures = λ re l. some (columns l by_path) }

abbrev path_line : Text
path_line = codes "lrwxr--r-- 1 1000 staff 2 Nov 5 2018 /home/current -> v2"

abbrev one_code : Text
one_code = codes "1" ++ newline ∷ []

abbrev is_dir_line : Text
is_dir_line = (codes "test -d " ++ quoted (codes "/home/current")) ++ codes "; echo $?"

abbrev stat_line : Text
stat_line = codes "ls -l " ++ quoted (codes "/home/current")
