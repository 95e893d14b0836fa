-- ===== src/Ssh/Sftp/Transfer.antt =====
-- src/ssh/sftp.rs: the copying loop, which stands in `append_file`, `create_file` and `open_file`.
-- Both loops take fuel, a bound on their rounds; without enough of it they diverge.
pub mod Streams
pub mod Complete
pub mod Stall
pub mod World
pub mod Failing
use remotefs_rs_ssh.Prelude.{ℕ, zero, suc, ◌+◌, List, [], ◌∷◌, length, drop, ltb, if◌then◌else◌}
use remotefs_rs_ssh.Exec.{Exec, pure, panics, diverges, ◌>>=◌, ◌>>◌}

abbrev pub buffer_size : ℕ
buffer_size = 65535

module _ {S : Type 0} (read : ℕ → Exec S (List ℕ)) (write : List ℕ → Exec S ℕ) where
  -- `while delta < bytes_read { delta += stream.write(&buffer[delta..bytes_read])?; }`, by the
  -- bytes from `delta` on.
  unfoldable pub write_all : ℕ → List ℕ → Exec S (Unit {0})
  write_all fuel [] = pure tt
  write_all zero (b ∷ rest) = diverges
  write_all (suc fuel) (b ∷ rest) = write (b ∷ rest) >>= λ n. write_all fuel (drop n (b ∷ rest))

  -- The writes of one round. The first slice of the buffer, `&buffer[0..bytes_read]`, panics where
  -- the reader tells more bytes than the buffer holds.
  unfoldable pub write_chunk : ℕ → List ℕ → Exec S (Unit {0})
  write_chunk fuel chunk = if ltb buffer_size (length chunk) then panics else write_all fuel chunk

  -- `while bytes < transfer_size { … }`
  unfoldable pub copy_loop : ℕ → ℕ → ℕ → ℕ → Exec S ℕ
  copy_loop writes zero size bytes = if ltb bytes size then diverges else pure bytes
  copy_loop writes (suc rounds) size bytes =
      let round : Exec S ℕ = (do
        chunk ← read buffer_size
        write_chunk writes chunk
        copy_loop writes rounds size (bytes + length chunk)) in
      if ltb bytes size then round else pure bytes
