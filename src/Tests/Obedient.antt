-- ===== src/Tests/Obedient.antt =====
-- A host whose shell reads lines in words and knows the names of files, and the theorems on it.
use remotefs_rs_ssh.Prelude.{
  none, some, ℕ, ◌<◌, ◌^◌, ◌≡◌, refl, true, false, some, List, [], ◌∷◌, ◌++◌, arith, Bool, ◌&&◌,
  All, if◌then◌else◌,
}
use remotefs_rs_ssh.Text.{Text, codes, newline, text_eq}
use remotefs_rs_ssh.Text.Number.{decimal, octal, show_radix}
use remotefs_rs_ssh.Remotefs.{Metadata, file, since}
use remotefs_rs_ssh.Exec.{Outcome, ok}
use remotefs_rs_ssh.Host.{Host, answer}
use remotefs_rs_ssh.Ssh.Opts
use remotefs_rs_ssh.Ssh.Scp.Client.{ScpFs}
use remotefs_rs_ssh.Ssh.Scp.Shell.{create_dir, spec, Request}
use remotefs_rs_ssh.Ssh.Scp.Shell.Words.{Reading, read_words, is_literal, is_bare, IsPlain}
use remotefs_rs_ssh.Ssh.Scp.Shell.Lines.{IsWord}
use remotefs_rs_ssh.Crates.{Crates}
use remotefs_rs_ssh.Ssh.Scp.Change
use remotefs_rs_ssh.Ssh.Scp.Ops.{stat}
use remotefs_rs_ssh.Ssh.Scp.Ops.Root.{stat_root}
use remotefs_rs_ssh.Ssh.Scp.Shell.Posix.{WordHost, by_words, request-words, setstat-words}
use remotefs_rs_ssh.Ssh.Scp.Shell.Injected.{create_dir_splits}
use remotefs_rs_ssh.Utils.{absolutize, fmt_time_utc}
use remotefs_rs_ssh.Ssh.Scp.Change.{setstat}
use remotefs_rs_ssh.Ssh.Scp.Shell.{setstat_spec}
use remotefs_rs_ssh.Ssh.Scp.Shell.Attributes.{stamp}
use remotefs_rs_ssh.Ssh.Scp.Shell.Refines.{request}
use remotefs_rs_ssh.Ssh.Commons.Connect.{
  connect, try_attempts, try_addresses, tcp_connect, set_algo_prefs, set_methods, authenticate,
  session_auth_with_password, stored_key,
}
use remotefs_rs_ssh.Ssh.Sftp.Client as Sftp
use remotefs_rs_ssh.Ssh.Sftp.Client.{SftpState}
use remotefs_rs_ssh.Ssh.Sftp.Calls.Home.{AtHome, sftp_connect-AtHome}
use remotefs_rs_ssh.Ssh.Config.{
  try_from, from_params, resolve_connection_attempts, resolve_connection_timeout,
}
use remotefs_rs_ssh.Foreign.{State, world_steps}
use remotefs_rs_ssh.Ssh.Commons.Connect.Auth.{AuthHost, connect-authenticated}
use remotefs_rs_ssh.Tests.Script.{Stage, scripted, plain_crates, quiet}

-- The shell knows the names of the files. `test` has one argument, and each other program succeeds and
-- its words are names from then on.
abbrev noted : Text → List Text → Bool
noted p [] = false
noted p (l ∷ ls) = if text_eq p l then true else noted p ls

abbrev tested : List Text → List Text → ℕ
tested (flag ∷ p ∷ []) ls = if noted p ls then 0 else 1
tested _ ls = 2

abbrev is_test : List Text → Bool
is_test [] = false
is_test (program ∷ arguments) = text_eq program (codes "test")

abbrev exit_of : List Text → List Text → ℕ
exit_of [] ls = 0
exit_of (program ∷ arguments) ls = if text_eq program (codes "test") then tested arguments ls else 0

abbrev names_after : List Text → List Text → List Text
names_after words ls = if is_test words then ls else words ++ ls

abbrev run_words : List Text → Stage → Stage
run_words words w = record w {
  outputs = (decimal (exit_of words w.sent) ++ newline ∷ []) ∷ [];
  sent = names_after words w.sent;
}

abbrev run_reading : Reading → Stage → Stage
run_reading none w = w
run_reading (some (words, rest)) w = run_words words w

abbrev obedient : Host
obedient = record scripted {
  channel_exec = λ c line w. (answer tt, run_reading (read_words line) w);
}

tested_small : (arguments ls : List Text) → tested arguments ls < 2 ^ 32
tested_small [] ls = omega arith
tested_small (flag ∷ []) ls = omega arith
tested_small (flag ∷ p ∷ []) ls = ground arith
tested_small (flag ∷ p ∷ q ∷ rest) ls = omega arith

exit_of_small : (words ls : List Text) → exit_of words ls < 2 ^ 32
exit_of_small [] ls = omega arith
exit_of_small (program ∷ arguments) ls = ground (arith, tested_small arguments ls)

abbrev obedient_shell : WordHost obedient
obedient_shell = record {
  silent = λ words. Unit;
  run = λ x words w. (exit_of words w.sent, record (run_words words w) { outputs = [] });
  channel = λ x w. tt;
  opened = λ x w. w;
  started = λ x words w. run_words words w;
  printed = λ x words w. record (run_words words w) { outputs = [] };
  exit_code = λ x words w h. exit_of_small words w.sent;
  open_law = λ x w. refl;
  exec_law = λ x line words w e h. rw e;
  print_law = λ x words w h. refl;
  close_law = λ x words w h. refl;
  session_law = λ x words w h. refl;
  silent_commands = λ k. tt;
}

abbrev client : ScpFs obedient
client = record { session = some tt; wrkdir = codes "/home"; opts = Opts.new tt (codes "server") }

-- The client where `/home/docs` exists.
abbrev with_docs : Stage
with_docs = record quiet { sent = codes "/home/docs" ∷ [] }

abbrev before : Stage → State (ScpFs obedient) Stage
before w = record { client = client; world = w }

abbrev all_of : (ℕ → Bool) → Text → Bool
all_of test [] = true
all_of test (c ∷ s) = test c && all_of test s

all_of-All : (test : ℕ → Bool) (s : Text) → all_of test s ≡ true → All (λ c. test c ≡ true) s
all_of-All test [] h = tt
all_of-All test (c ∷ s) h = (ground arith, all_of-All test s (ground arith))

plain : (s : Text) → all_of is_literal s ≡ true → IsPlain s
plain s h = all_of-All is_literal s h

abbrev spec_of : Request ℕ → Stage → Outcome (Unit {0}) × Stage
spec_of r w = spec (by_words obedient obedient_shell tt) plain_crates.pex_bits (codes "/home") r w

docs-IsPlain : IsPlain (codes "/home/docs")
docs-IsPlain = plain (codes "/home/docs") refl

docs_made : (spec_of (create_dir (codes "docs") 493) quiet).0 ≡ ok tt
unfolding absolutize octal show_radix text_eq
docs_made = refl

request-words_example :
    request plain_crates obedient (create_dir (codes "docs") 493) (before quiet) ≡ (
      (spec_of (create_dir (codes "docs") 493) quiet).0,
      before (spec_of (create_dir (codes "docs") 493) quiet).1,
    )
unfolding absolutize
request-words_example =
    request-words plain_crates obedient obedient_shell tt client refl refl
      (create_dir (codes "docs") 493) quiet (docs-IsPlain, (docs-IsPlain, tt)) refl

abbrev read_only_mode : Metadata ℕ
read_only_mode = record {
  accessed = none;
  created = none;
  file_type = file;
  gid = some 5;
  mode = some 292;
  modified = some (since 1000 0);
  size = 0;
  symlink = none;
  uid = some 7;
}

-- Crates that print each time alike.
abbrev stamping_crates : Crates
stamping_crates = record plain_crates { format_time = λ t f. codes "200101010000.00" }

abbrev change_of : Stage → Outcome (Unit {0}) × Stage
change_of w =
    setstat_spec (by_words obedient obedient_shell tt) plain_crates.pex_bits (stamp stamping_crates)
      (codes "/home") (codes "docs") read_only_mode w

docs_changed : (change_of with_docs).0 ≡ ok tt
unfolding absolutize text_eq
docs_changed = refl

stamp-IsWord : IsWord (codes "200101010000.00")
stamp-IsWord = record {
  first = 50;
  rest = codes "00101010000.00";
  split = refl;
  is_bare = all_of-All is_bare (codes "200101010000.00") refl;
}

setstat-words_example :
    setstat stamping_crates obedient (codes "docs") read_only_mode (before with_docs)
    ≡ ((change_of with_docs).0, before (change_of with_docs).1)
unfolding absolutize fmt_time_utc
setstat-words_example =
    setstat-words stamping_crates obedient obedient_shell tt client refl refl (codes "docs")
      read_only_mode with_docs
      (docs-IsPlain, (docs-IsPlain, (docs-IsPlain, ((stamp-IsWord, docs-IsPlain), tt)))) refl

-- One call makes two directories.
create_dir_splits_example :
    Change.create_dir plain_crates obedient (codes "a\" \"b") 493 (before quiet) ≡ (
      ok tt,
      before (record quiet {
        sent = codes "mkdir" ∷ codes "-m" ∷ codes "755" ∷ codes "/home/a" ∷ codes "b" ∷ [];
      }),
    )
unfolding absolutize text_eq octal show_radix decimal
create_dir_splits_example =
    create_dir_splits plain_crates obedient obedient_shell tt client refl refl (codes "/home/a")
      (codes "b") (codes "a\" \"b") 493 quiet (plain (codes "/home/a") refl)
      (plain (codes "b") refl) refl tt tt refl refl

stat_root_example : ¬ (
    (stat plain_crates obedient (codes "/") (before quiet)).0
    ≡ ok (record { path = codes "/"; metadata = read_only_mode }))
unfolding absolutize
stat_root_example =
    stat_root plain_crates obedient (codes "/") (before quiet)
      (record { path = codes "/"; metadata = read_only_mode }) refl

abbrev scripted_auth : AuthHost scripted
scripted_auth = record {
  owner = λ a. tt;
  pubkey_file_ok = λ x u k p w h. refl;
  password_ok = λ x u p w h. refl;
  agent_ok = λ a u i w h. refl;
  agent_owner = λ x a w h. refl;
  agent_left = λ x a w. refl;
}

abbrev with_password : Opts.SshOpts (Unit {0})
with_password = Opts.with_password (Opts.new tt (codes "server")) (codes "secret")

abbrev fresh : Stage
fresh = record quiet { live = false }

connects : (connect scripted with_password fresh).0 ≡ ok tt
unfolding connect try_from from_params resolve_connection_attempts resolve_connection_timeout
    try_attempts try_addresses tcp_connect set_algo_prefs set_methods authenticate
    session_auth_with_password stored_key world_steps
connects = refl

connect-authenticated_example :
    scripted.authenticated tt (connect scripted with_password fresh).1 ≡ true
connect-authenticated_example =
    connect-authenticated scripted scripted_auth with_password fresh tt connects

abbrev sftp_start : SftpState scripted
sftp_start = record { client = Sftp.new_client scripted with_password; world = fresh }

sftp_connects : (Sftp.connect scripted sftp_start).0 ≡ ok none
unfolding Sftp.connect connect try_from from_params resolve_connection_attempts
    resolve_connection_timeout try_attempts try_addresses tcp_connect set_algo_prefs set_methods
    authenticate session_auth_with_password stored_key world_steps
sftp_connects = refl

sftp_connect-AtHome_example : AtHome scripted (Sftp.connect scripted sftp_start).1
sftp_connect-AtHome_example =
    sftp_connect-AtHome scripted scripted_auth
      (record { blocking = λ x w h. h; channel = λ x w h. h; resolving = λ x f p w h. h })
      sftp_start none sftp_connects
