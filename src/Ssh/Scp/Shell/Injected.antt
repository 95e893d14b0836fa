-- ===== src/Ssh/Scp/Shell/Injected.antt =====
-- src/ssh/scp.rs: a path with a quote in it changes the command that the shell reads.
use remotefs_rs_ssh.Prelude.{
  ℕ, ◌≡◌, ◌∙◌, ap, true, false, some, List, [], ◌∷◌, ◌++◌, append_assoc, ◌==◌, if◌then◌else◌,
}
use remotefs_rs_ssh.Text.{Text, codes, quoted}
use remotefs_rs_ssh.Text.Number.{octal}
use remotefs_rs_ssh.FilePath.{is_absolute}
use remotefs_rs_ssh.Utils.{absolutize}
use remotefs_rs_ssh.Remotefs.{new, file_create_denied}
use remotefs_rs_ssh.Exec.{ok, err}
use remotefs_rs_ssh.Host.{Host}
use remotefs_rs_ssh.Crates.{Crates}
use remotefs_rs_ssh.Ssh.Scp.Client.{ScpFs}
use remotefs_rs_ssh.Ssh.Scp.Change
use remotefs_rs_ssh.Ssh.Scp.Shell.{Command, test_exists, mkdir, line_of}
use remotefs_rs_ssh.Ssh.Scp.Shell
use remotefs_rs_ssh.Ssh.Scp.Shell.Words.{bare, read, read_words, IsPlain}
use remotefs_rs_ssh.Ssh.Scp.Shell.Lines.{echo, asked, two_words, first_word, octal-IsWord, words_of}
use remotefs_rs_ssh.Ssh.Scp.Shell.Refines.{request-spec}
use remotefs_rs_ssh.Ssh.Scp.Shell.Posix.{WordHost, shell_of}

-- A path with `" "` in it is two words.
abbrev pub two_in_one : Text → Text → Text
two_in_one a b = a ++ (34 ∷ 32 ∷ 34 ∷ b)

two_in_one-quoted :
    (a b : Text) → (two_in_one a b ++ 34 ∷ []) ++ echo ≡ a ++ (34 ∷ 32 ∷ 34 ∷ (b ++ 34 ∷ echo))
two_in_one-quoted a b =
    ap (λ t. t ++ echo) (append_assoc a (34 ∷ 32 ∷ 34 ∷ b) (34 ∷ []))
    ∙ append_assoc a (34 ∷ 32 ∷ 34 ∷ (b ++ 34 ∷ [])) echo
    ∙ ap (λ t. a ++ (34 ∷ 32 ∷ 34 ∷ t)) (append_assoc b (34 ∷ []) echo)

test_exists-two :
    (a b : Text)
    → IsPlain a
    → IsPlain b
    → read_words (line_of (test_exists (two_in_one a b)) ++ echo)
      ≡ some (codes "test" ∷ codes "-e" ∷ a ∷ b ∷ [], asked)
unfolding read
test_exists-two a b h k = rw (two_in_one-quoted a b, two_words a b h k)

next_two :
    (a b : Text)
    → IsPlain a
    → IsPlain b
    → read bare (32 ∷ 34 ∷ (a ++ (34 ∷ 32 ∷ 34 ∷ (b ++ 34 ∷ echo)))) ≡ some ([] ∷ a ∷ b ∷ [], asked)
unfolding read
next_two a b h k = rw (two_words a b h k)

mkdir-two :
    (mode : ℕ) (a b : Text)
    → IsPlain a
    → IsPlain b
    → read_words (line_of (mkdir mode (two_in_one a b)) ++ echo)
      ≡ some (codes "mkdir" ∷ codes "-m" ∷ octal mode ∷ a ∷ b ∷ [], asked)
unfolding read
mkdir-two mode a b h k = rw (
  append_assoc (octal mode) (32 ∷ quoted (two_in_one a b)) echo,
  two_in_one-quoted a b,
  first_word (octal mode) _ (a ∷ b ∷ []) (octal-IsWord mode) (next_two a b h k),
)

-- The words where `a` and `b` stand for the path.
abbrev test_two : Text → Text → List Text
test_two a b = codes "test" ∷ codes "-e" ∷ a ∷ b ∷ []

abbrev mkdir_two : ℕ → Text → Text → List Text
mkdir_two mode a b = codes "mkdir" ∷ codes "-m" ∷ octal mode ∷ a ∷ b ∷ []

abbrev split_words : Text → Text → Command → List Text
split_words a b (test_exists p) = test_two a b
split_words a b (mkdir mode p) = mkdir_two mode a b
split_words a b k = words_of k

module _ (C : Crates) (H : Host) (host : WordHost H) (x : H.Session) (c : ScpFs H)
    (open_session : c.session ≡ some x) where
  -- `mkdir` of `a` and `b`, behind the test of both.
  abbrev mkdir_both : ℕ → Text → Text → H.World → ℕ × H.World
  mkdir_both mode a b w = host.run x (mkdir_two mode a b) (host.run x (test_two a b) w).1

  -- On such a host, where a path is resolved to two texts without special characters with a double
  -- quote, a blank and a double quote between them: if `test -e` of both texts does not succeed,
  -- `create_dir` runs `mkdir` of both, and succeeds where that does.
  pub create_dir_splits :
      (rooted : is_absolute c.wrkdir ≡ true) (a b path : Text) (mode : C.UnixPex) (w : H.World)
      → IsPlain a
      → IsPlain b
      → absolutize c.wrkdir path ≡ two_in_one a b
      → host.silent (test_two a b)
      → host.silent (mkdir_two (C.pex_bits mode) a b)
      → H.authenticated x w ≡ true
      → ((host.run x (test_two a b) w).0 == 0) ≡ false
      → Change.create_dir C H path mode (record { client = c; world = w }) ≡ (
        if (mkdir_both (C.pex_bits mode) a b w).0 == 0 then ok tt else err (new file_create_denied),
        record { client = c; world = (mkdir_both (C.pex_bits mode) a b w).1 },
      )
  create_dir_splits rooted a b path mode w plain_a plain_b named quiet_test quiet_mkdir live
        missing =
      request-spec C H (shell_of H host (split_words a b)) x c open_session rooted
        (Shell.create_dir path mode) w
        (rw named (
          (test_exists-two a b plain_a plain_b, quiet_test),
          ((mkdir-two (C.pex_bits mode) a b plain_a plain_b, quiet_mkdir), tt),
        ))
        live
      ∙ rw missing
