-- ===== src/Ssh/Sftp/Server/Effect.antt =====
-- src/ssh/sftp.rs, abstractly: the requests that change files, and the effects of each.
use remotefs_rs_ssh.Prelude.{◌≡◌, true, false, List}
use remotefs_rs_ssh.Text.{Text}
use remotefs_rs_ssh.Utils.{absolutize}
use remotefs_rs_ssh.Remotefs.{
  Metadata, RemoteErrorType, could_not_open_file, could_not_remove_file, directory_already_exists,
  file_create_denied, no_such_file_or_directory, stat_failed,
}
use remotefs_rs_ssh.Exec.{Outcome, ok, err, panic, diverged}
use remotefs_rs_ssh.Crates.{Crates}
use remotefs_rs_ssh.Host.{Host, OpenFlag}
use remotefs_rs_ssh.Ssh.Sftp.Entry.{metadata_to_filestat}
use remotefs_rs_ssh.Ssh.Sftp.Files.{mode_of}
use remotefs_rs_ssh.Ssh.Sftp.Server.{
  folder, link, Message, unlink, rmdir, mkdir, make_link, rename, set_attributes, open_file, View,
  Unlinked, DirRemoved, Made, Moved, OpenedFile, SameNodes, append_flags, create_flags,
}

-- How a call ended.
pub data Report : Type 0 where
  done panicked hung : Report
  failed : RemoteErrorType → Report

abbrev pub report : {A : Type 0} → Outcome A → Report
report (ok a) = done
report (err e) = failed e.kind
report panic = panicked
report diverged = hung

-- The calls that change the files of the server, or only their attributes.
pub data Request (UnixPex : Type 0) : Type 0 where
  remove_file remove_dir : Text → Request UnixPex
  create_dir : Text → UnixPex → Request UnixPex
  symlink mov : Text → Text → Request UnixPex
  setstat append create : Text → Metadata UnixPex → Request UnixPex

-- What a request does to the files, from a working directory, and how it ends. `create_dir`,
-- `symlink` and `mov` ask first whether a path is shown; a request goes wrong by that answer, or
-- because the server refuses the message of the request, and then it changes nothing.
module _ (C : Crates) (H : Host) {Entry : Type 0} (dir : Text) (t : View Entry) where
  abbrev full : Text → Text
  full p = absolutize dir p

  abbrev pub removing : Text → Message
  removing p = unlink (full p)

  abbrev pub making : Text → C.UnixPex → Message
  making p mode = mkdir (full p) (C.pex_bits mode)

  abbrev pub setting : Text → Metadata C.UnixPex → Message
  setting p m = set_attributes (full p) (metadata_to_filestat C m)

  abbrev pub opening : Text → List OpenFlag → Metadata C.UnixPex → Message
  opening p flags m = open_file (full p) flags (mode_of C H m)

  pub data Effect : Request C.UnixPex → Report → View Entry → Type 0 where
    file_removed :
        (p : Text) (u : View Entry)
        → t.denied (removing p) ≡ false
        → Unlinked t u (full p)
        → Effect (remove_file p) done u
    file_kept :
        (p : Text)
        → t.denied (removing p) ≡ true
        → Effect (remove_file p) (failed could_not_remove_file) t
    dir_removed :
        (p : Text) (u : View Entry)
        → t.denied (rmdir (full p)) ≡ false
        → DirRemoved t u (full p)
        → Effect (remove_dir p) done u
    dir_kept :
        (p : Text)
        → t.denied (rmdir (full p)) ≡ true
        → Effect (remove_dir p) (failed could_not_remove_file) t
    dir_present :
        (p : Text) (mode : C.UnixPex)
        → t.shown (full p) ≡ true
        → Effect (create_dir p mode) (failed directory_already_exists) t
    dir_created :
        (p : Text) (mode : C.UnixPex) (u : View Entry)
        → t.shown (full p) ≡ false
        → t.denied (making p mode) ≡ false
        → Made t u (full p) folder
        → Effect (create_dir p mode) done u
    dir_refused :
        (p : Text) (mode : C.UnixPex)
        → t.shown (full p) ≡ false
        → t.denied (making p mode) ≡ true
        → Effect (create_dir p mode) (failed file_create_denied) t
    link_dangling :
        (p to : Text)
        → t.shown (full to) ≡ false
        → Effect (symlink p to) (failed no_such_file_or_directory) t
    linked :
        (p to : Text) (u : View Entry)
        → t.shown (full to) ≡ true
        → t.denied (make_link to (full p)) ≡ false
        → Made t u (full p) link
        → Effect (symlink p to) done u
    link_refused :
        (p to : Text)
        → t.shown (full to) ≡ true
        → t.denied (make_link to (full p)) ≡ true
        → Effect (symlink p to) (failed file_create_denied) t
    move_missing :
        (src dest : Text)
        → t.shown (full src) ≡ false
        → Effect (mov src dest) (failed no_such_file_or_directory) t
    moved :
        (src dest : Text) (u : View Entry)
        → t.shown (full src) ≡ true
        → t.denied (rename (full src) (full dest)) ≡ false
        → Moved t u (full src) (full dest)
        → Effect (mov src dest) done u
    move_refused :
        (src dest : Text)
        → t.shown (full src) ≡ true
        → t.denied (rename (full src) (full dest)) ≡ true
        → Effect (mov src dest) (failed file_create_denied) t
    attributes_set :
        (p : Text) (m : Metadata C.UnixPex) (u : View Entry)
        → t.denied (setting p m) ≡ false
        → SameNodes t u
        → Effect (setstat p m) done u
    attributes_kept :
        (p : Text) (m : Metadata C.UnixPex)
        → t.denied (setting p m) ≡ true
        → Effect (setstat p m) (failed stat_failed) t
    opened_at_end :
        (p : Text) (m : Metadata C.UnixPex) (u : View Entry)
        → t.denied (opening p append_flags m) ≡ false
        → OpenedFile t u (full p)
        → Effect (append p m) done u
    append_refused :
        (p : Text) (m : Metadata C.UnixPex)
        → t.denied (opening p append_flags m) ≡ true
        → Effect (append p m) (failed could_not_open_file) t
    opened_empty :
        (p : Text) (m : Metadata C.UnixPex) (u : View Entry)
        → t.denied (opening p create_flags m) ≡ false
        → OpenedFile t u (full p)
        → Effect (create p m) done u
    create_refused :
        (p : Text) (m : Metadata C.UnixPex)
        → t.denied (opening p create_flags m) ≡ true
        → Effect (create p m) (failed file_create_denied) t
