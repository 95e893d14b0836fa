-- ===== src/Ssh/Sftp/Server/Sequences.antt =====
-- src/ssh/sftp.rs: requests one after the other, on a server that holds files.
use remotefs_rs_ssh.Prelude.{◌≡◌, List, [], ◌∷◌}
use remotefs_rs_ssh.Text.{Text}
use remotefs_rs_ssh.Host.{Host}
use remotefs_rs_ssh.Crates.{Crates}
use remotefs_rs_ssh.Ssh.Sftp.Client.{SftpState}
use remotefs_rs_ssh.Ssh.Sftp.Server.{View}
use remotefs_rs_ssh.Ssh.Sftp.Server.Effect.{Report, report, Request, Effect}
use remotefs_rs_ssh.Ssh.Sftp.Server.Steps.{Opened, Files, IsLive}
use remotefs_rs_ssh.Ssh.Sftp.Server.Refines.{request}

-- A request and how it ended.
pub record Ended (UnixPex : Type 0) : Type 0 where
  pub asked : Request UnixPex
  pub result : Report

-- A sequence of requests takes the files from one view to another, each by its effect.
module _ (C : Crates) (H : Host) {Entry : Type 0} (dir : Text) where
  pub data Effects : View Entry → List (Ended C.UnixPex) → View Entry → Type 0 where
    nothing : {t : View Entry} → Effects t [] t
    after :
        {t u v : View Entry} {r : Request C.UnixPex} {result : Report}
        {rest : List (Ended C.UnixPex)}
        → Effect C H dir t r result u
        → Effects u rest v
        → Effects t (record { asked = r; result = result } ∷ rest) v

module _ (C : Crates) (H : Host) where
  -- The requests are made whatever became of those before.
  unfoldable pub ended : List (Request C.UnixPex) → SftpState H → List (Ended C.UnixPex)
  ended [] s = []
  ended (r ∷ rs) s =
      record { asked = r; result = report (request C H r s).0 } ∷ ended rs (request C H r s).1

  unfoldable pub final : List (Request C.UnixPex) → SftpState H → SftpState H
  final [] s = s
  final (r ∷ rs) s = final rs (request C H r s).1

module _ (C : Crates) {H : Host} (o : Opened H) where
  open o use {server, client}

  -- What a sequence leaves: the client, a live session, and the files that the effects lead to.
  pub record Carried (rs : List (Request C.UnixPex)) (t : Files o) (s : SftpState H) : Type 0 where
    pub client_kept : (final C H rs s).client ≡ client
    pub live : IsLive o (final C H rs s).world
    pub effects : Effects C H client.wrkdir t (ended C H rs s) (server.view (final C H rs s).world)
