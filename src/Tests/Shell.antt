-- ===== src/Tests/Shell.antt =====
-- Runs and instances for src/ssh/commons.rs, shell commands.
use remotefs_rs_ssh.Prelude.{◌≡◌, refl, inr, ◌∷◌, [], ◌++◌, arith}
use remotefs_rs_ssh.Text.{codes, newline, is_whitespace, utf8_len}
use remotefs_rs_ssh.Text.Number.{decimal}
use remotefs_rs_ssh.Exec.{ok, panic}
use remotefs_rs_ssh.Ssh.Commons.Shell.{read_rc}
use remotefs_rs_ssh.Ssh.Commons.Shell.ExitCode.{read_rc-clean}
use remotefs_rs_ssh.Ssh.Commons.Shell.Misread.{read_rc_indented, read_rc_glued}

-- The outputs of the test `should_perform_shell_command_on_server_and_return_exit_code`.
tmp_output : read_rc (codes "/tmp\n0\n") ≡ ok (0, codes "/tmp\n")
unfolding read_rc
tmp_output = refl

not_found : read_rc (codes "127\n") ≡ ok (127, [])
unfolding read_rc
not_found = refl

read_rc-clean_example :
    read_rc (codes "/tmp\n" ++ (decimal 0 ++ newline ∷ [])) ≡ ok (0, codes "/tmp\n")
unfolding is_whitespace
read_rc-clean_example =
    read_rc-clean (codes "/tmp\n") 0 (inr (47, codes "tmp", refl, refl)) (omega arith)

read_rc_indented_example : read_rc (codes " café\n0\n") ≡ panic
unfolding is_whitespace utf8_len decimal
read_rc_indented_example = read_rc_indented 32 (codes "caf") 233 0 refl refl refl refl

read_rc_glued_example : read_rc (codes "120\n") ≡ ok (120, [])
unfolding decimal
read_rc_glued_example = read_rc_glued 12 0 (omega arith) (omega arith)
