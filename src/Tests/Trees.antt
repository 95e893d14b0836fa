-- ===== src/Tests/Trees.antt =====
-- The host of Tests/Shelf.antt keeps to the contract of an SFTP server, and runs requests.
use remotefs_rs_ssh.Prelude.{
  ℕ, ◌≡◌, ◌≢◌, refl, true, false, Bool, Option, none, some, List, [], ◌∷◌, is_some, not, inl, inr,
  Bool-cases,
}
use remotefs_rs_ssh.Text.{Text, codes, text_eq}
use remotefs_rs_ssh.Text.Equal.{text_eq-≡, text_eq_refl}
use remotefs_rs_ssh.FilePath.{is_absolute}
use remotefs_rs_ssh.Ssh.Opts
use remotefs_rs_ssh.Ssh.Sftp.Server.{
  Node, folder, leaf, link, Message, unlink, rmdir, mkdir, make_link, rename, set_attributes,
  open_file, View, Only, Renamed, Unlinked, DirRemoved, Made, Moved, OpenedFile, IsUnlinkable,
  SameNodes, append_flags, create_flags,
}
use remotefs_rs_ssh.Ssh.Sftp.Server.Effect.{Request, create_dir, mov, remove_file}
use remotefs_rs_ssh.Ssh.Sftp.Server.Contract.{Does, Obeys, Server}
use remotefs_rs_ssh.Ssh.Sftp.Server.Steps.{Opened}
use remotefs_rs_ssh.Tests.Shelf.{
  Tree, Shelf, shelf, put, shows, unlinkable, writable, is_folder, with_tree, replies, stat_of,
  renamed,
}

abbrev refuses : Tree → Message → Bool
refuses t (unlink p) = not (unlinkable (t p))
refuses t (rmdir p) = not (is_folder (t p))
refuses t (mkdir p mode) = is_some (t p)
refuses t (make_link to p) = is_some (t p)
refuses t (rename src dest) = not (is_some (t src))
refuses t (set_attributes p st) = false
refuses t (open_file p flags mode) = not (writable (t p))

abbrev view : Shelf → View Text
view w = record {
  place = λ p. some p;
  target = λ p. some p;
  node = w.tree;
  shown = λ p. shows (w.tree p);
  denied = refuses w.tree;
}

put-Only :
    (p : Text) (n : Option Node) (w : Shelf)
    → Only p n (view w) (view (with_tree (put p n w.tree) w))
put-Only p n w = record {
  changed = rw (text_eq_refl p);
  elsewhere = λ f apart. elim (Bool-cases (text_eq f p)) [
    | inl same ↦ absurd (apart (text_eq-≡ f p same))
    | inr other ↦ rw other
  ];
}

-- A message that is answered just where the test holds has the effect of its answer.
replies-Obeys :
    (m : Message) (b : Bool) (t : Tree) (w : Shelf) (P : View Text → View Text → Type 0)
    → refuses w.tree m ≡ not b
    → (b ≡ true → P (view w) (view (with_tree t w)))
    → Obeys shelf tt tt view m (replies b t w) w P
replies-Obeys m true t w P e h = record {
  live = refl;
  on_answer = λ u k. (e, h refl);
  on_failure = λ text k. cc;
}
replies-Obeys m false t w P e h = record {
  live = refl;
  on_answer = λ u k. cc;
  on_failure = λ text k. (e, refl);
}

not-not : (b : Bool) → b ≡ not (not b)
not-not true = refl
not-not false = refl

absent : (n : Option Node) → not (is_some n) ≡ true → n ≡ none
absent none h = refl
absent (some n) h = cc

unlinked : (n : Option Node) → unlinkable n ≡ true → IsUnlinkable n
unlinked (some leaf) h = tt
unlinked (some link) h = tt
unlinked (some folder) h = cc
unlinked none h = cc

a_folder : (n : Option Node) → is_folder n ≡ true → n ≡ some folder
a_folder (some folder) h = refl
a_folder (some leaf) h = cc
a_folder (some link) h = cc
a_folder none h = cc

no_folder : (n : Option Node) → writable n ≡ true → n ≢ some folder
no_folder (some folder) h k = cc
no_folder (some leaf) h k = cc
no_folder (some link) h k = cc
no_folder none h k = cc

present : (n : Option Node) → is_some n ≡ true → n ≢ none
present none h k = cc
present (some n) h k = cc

stat-Does :
    (w : Shelf) (n : Option Node)
    → Does shelf tt tt view
        (stat_of n w)
        w
        (λ u. (shows n ≡ true) × (u ≡ view w))
        (λ u. (shows n ≡ false) × (u ≡ view w))
stat-Does w none = record { live = refl; on_answer = λ a e. cc; on_failure = λ t e. (refl, refl) }
stat-Does w (some link) = record {
  live = refl;
  on_answer = λ a e. cc;
  on_failure = λ t e. (refl, refl);
}
stat-Does w (some folder) = record {
  live = refl;
  on_answer = λ a e. (refl, refl);
  on_failure = λ t e. cc;
}
stat-Does w (some leaf) = record {
  live = refl;
  on_answer = λ a e. (refl, refl);
  on_failure = λ t e. cc;
}

renamed-Renamed :
    (src dest : Text) (w : Shelf)
    → Renamed src dest (view w) (view (with_tree (renamed src dest w.tree) w))
renamed-Renamed src dest w = record {
  arrived = rw (text_eq_refl dest);
  left = λ apart. inl (elim (Bool-cases (text_eq src dest)) [
    | inl same ↦ absurd (apart (text_eq-≡ src dest same))
    | inr other ↦ rw (other, text_eq_refl src)
  ]);
  elsewhere = λ g h k. elim (Bool-cases (text_eq g dest)) [
    | inl same ↦ absurd (k (text_eq-≡ g dest same))
    | inr other ↦ elim (Bool-cases (text_eq g src)) [
      | inl same ↦ absurd (h (text_eq-≡ g src same))
      | inr different ↦ rw (other, different)
    ]
  ];
}

opens :
    (p : Text) (w : Shelf)
    → writable (w.tree p) ≡ true
    → OpenedFile (view w) (view (with_tree (put p (some leaf) w.tree) w)) p
opens p w h = record {
  entry = p;
  at_path = refl;
  held = no_folder (w.tree p) h;
  only = put-Only p (some leaf) w;
}

made :
    (p : Text) (n : Node) (w : Shelf)
    → not (is_some (w.tree p)) ≡ true
    → Made (view w) (view (with_tree (put p (some n) w.tree) w)) p n
made p n w h = record {
  entry = p;
  at_path = refl;
  free = absent (w.tree p) h;
  only = put-Only p (some n) w;
}

abbrev shelf_server : Server shelf tt tt
shelf_server = record {
  Entry = Text;
  view = view;
  stat_law = λ p w. stat-Does w (w.tree p);
  readlink_law = λ p w. record { live = refl; on_answer = λ l h. refl; on_failure = λ t h. refl };
  setstat_law = λ p st w.
      replies-Obeys (set_attributes p st) true w.tree w (λ t u. SameNodes t u) refl (λ h e. refl);
  unlink_law = λ p w.
      replies-Obeys (unlink p) (unlinkable (w.tree p)) (put p none w.tree) w (λ t u. Unlinked t u p)
        refl
        (λ h. record {
          entry = p;
          at_path = refl;
          held = unlinked (w.tree p) h;
          only = put-Only p none w;
        });
  rmdir_law = λ p w.
      replies-Obeys (rmdir p) (is_folder (w.tree p)) (put p none w.tree) w (λ t u. DirRemoved t u p)
        refl
        (λ h. record {
          entry = p;
          at_path = refl;
          held = a_folder (w.tree p) h;
          only = put-Only p none w;
        });
  mkdir_law = λ p mode w.
      replies-Obeys (mkdir p mode) (not (is_some (w.tree p))) (put p (some folder) w.tree) w
        (λ t u. Made t u p folder) (not-not (is_some (w.tree p))) (made p folder w);
  symlink_law = λ to p w.
      replies-Obeys (make_link to p) (not (is_some (w.tree p))) (put p (some link) w.tree) w
        (λ t u. Made t u p link) (not-not (is_some (w.tree p))) (made p link w);
  rename_law = λ src dest w.
      replies-Obeys (rename src dest) (is_some (w.tree src)) (renamed src dest w.tree) w
        (λ t u. Moved t u src dest) refl
        (λ h. record {
          entry = src;
          new_entry = dest;
          from_path = refl;
          to_path = refl;
          held = present (w.tree src) h;
          renamed = renamed-Renamed src dest w;
        });
  append_law = λ p mode w.
      replies-Obeys (open_file p append_flags mode) (writable (w.tree p)) (put p (some leaf) w.tree)
        w (λ t u. OpenedFile t u p) refl (opens p w);
  create_law = λ p mode w.
      replies-Obeys (open_file p create_flags mode) (writable (w.tree p)) (put p (some leaf) w.tree)
        w (λ t u. OpenedFile t u p) refl (opens p w);
}

abbrev connected : Opened shelf
connected = record {
  session = tt;
  sftp = tt;
  server = shelf_server;
  client = record {
    session = some tt;
    sftp = some tt;
    wrkdir = codes "/home";
    opts = Opts.new {ParseRule = Unit {0}} tt (codes "server");
  };
  open_session = refl;
  open_sftp = refl;
  rooted = unfold is_absolute in refl;
}

abbrev bare : Shelf
bare = record { live = true; tree = put (codes "/home") (some folder) (λ p. none) }

abbrev errands : List (Request ℕ)
errands =
    create_dir (codes "a") 493 ∷ mov (codes "a") (codes "/home/b") ∷ remove_file (codes "c") ∷ []
