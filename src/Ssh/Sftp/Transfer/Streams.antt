-- ===== src/Ssh/Sftp/Transfer/Streams.antt =====
-- What the copying loop of src/ssh/sftp.rs may rely on: the contracts of `std::io::Read` and
-- `std::io::Write` for a source of finitely many bytes and a sink, neither of which fails.
use remotefs_rs_ssh.Prelude.{ℕ, ◌≤◌, ◌<◌, ◌≡◌, ◌≢◌, List, [], ◌++◌, length, take}
use remotefs_rs_ssh.Exec.{Exec, ok}

-- One `read` takes some of the remaining bytes, at least one if there is one.
pub record ReadStep {S : Type 0} (read : ℕ → Exec S (List ℕ)) (remaining written : S → List ℕ)
    (n : ℕ) (s : S) : Type 0 where
  pub chunk : List ℕ
  pub after : S
  pub returns : read n s ≡ (ok chunk, after)
  pub taken : remaining s ≡ chunk ++ remaining after
  pub fits : length chunk ≤ n
  pub progress : remaining s ≢ [] → 0 < length chunk
  pub sink_kept : written after ≡ written s

-- One `write` takes a front part of the bytes, at least one.
pub record WriteStep {S : Type 0} (write : List ℕ → Exec S ℕ) (remaining written : S → List ℕ)
    (bytes : List ℕ) (s : S) : Type 0 where
  pub count : ℕ
  pub after : S
  pub returns : write bytes s ≡ (ok count, after)
  pub progress : 0 < count
  pub fits : count ≤ length bytes
  pub put : written after ≡ written s ++ take count bytes
  pub source_kept : remaining after ≡ remaining s

pub record IsStream {S : Type 0} (read : ℕ → Exec S (List ℕ)) (write : List ℕ → Exec S ℕ)
    (remaining written : S → List ℕ) : Type 0 where
  pub read_step : (n : ℕ) (s : S) → 0 < n → ReadStep read remaining written n s
  pub write_step : (bytes : List ℕ) (s : S) → bytes ≢ [] → WriteStep write remaining written bytes s
