-- ===== src/Ssh/Scp/Listing/Below.antt =====
-- src/ssh/scp.rs, the entries of a listing, and their paths.
use remotefs_rs_ssh.Prelude.{◌≡◌, false, none, List, [], All, ◌≢◌, ◌==◌}
use remotefs_rs_ssh.Text.{Text}
use remotefs_rs_ssh.FilePath.{push, file_name, slash}
use remotefs_rs_ssh.Remotefs.{File}
use remotefs_rs_ssh.Crates.{Crates}
use remotefs_rs_ssh.Ssh.Scp.Listing.{Listed, listed, ignored, panicked, is_dots}

-- What holds of a parsed value, where there is one.
abbrev pub Holds : {A : Type 0} → (A → Type 0) → Listed A → Type 0
Holds P (listed a) = P a
Holds P ignored = Unit
Holds P panicked = Unit

-- One component of a path: not empty, without a slash, and neither `.` nor `..`.
pub record IsComponent (name : Text) : Type 0 where
  pub written : name ≢ []
  pub single : All (λ c. (c == slash) ≡ false) name
  pub proper : is_dots name ≡ false

-- The path is one component below the directory; or the printed name has no last component, and is
-- added as it is.
pub data IsPlaced {UnixPex : Type 0} (path : Text) (f : File UnixPex) : Type 0 where
  below : (name : Text) → IsComponent name → f.path ≡ push path name → IsPlaced path f
  unnamed : (raw : Text) → file_name raw ≡ none → f.path ≡ push path raw → IsPlaced path f

abbrev NoSlash : Text → Type 0
NoSlash = All (λ c. (c == slash) ≡ false)
