-- ===== src/Ssh/Sftp/Transfer/Stall.antt =====
-- src/ssh/sftp.rs, the copying loop at the end of its source.
use remotefs_rs_ssh.Prelude.{
  ℕ, zero, suc, ◌+◌, ◌≤◌, ◌<◌, ◌≡◌, ◌∙◌, ap, List, length, length-append, arith, lt→ltb,
}
use remotefs_rs_ssh.Exec.{steps, Exec, diverged}
use remotefs_rs_ssh.Ssh.Sftp.Transfer.{copy_loop, buffer_size}
use remotefs_rs_ssh.Ssh.Sftp.Transfer.Streams.{IsStream}
use remotefs_rs_ssh.Ssh.Sftp.Transfer.Complete.{write_all-Written, copy_loop-round}

module _ {S : Type 0} (read : ℕ → Exec S (List ℕ)) (write : List ℕ → Exec S ℕ)
    (remaining written : S → List ℕ) where
  -- From a source that holds fewer than `size - bytes` bytes, the loop does not end on any fuel: at the end of the
  -- source each round reads nothing and the count stays where it is.
  pub copy_loop_stalls :
      (h : IsStream read write remaining written) (writes rounds size bytes : ℕ) (s : S)
      → buffer_size ≤ writes
      → bytes + length (remaining s) < size
      → (copy_loop read write writes rounds size bytes s).0 ≡ diverged
  copy_loop_stalls h writes zero size bytes s room short =
      unfold copy_loop steps in rw (lt→ltb bytes size (omega arith))
  copy_loop_stalls h writes (suc rounds) size bytes s room short =
      let r = h.read_step buffer_size s (omega arith) in
      let w =
        write_all-Written read write remaining written h writes r.chunk r.after
          (omega (arith, r.fits)) in
      let left = ap length r.taken ∙ length-append r.chunk (remaining r.after) in
      rw (copy_loop-round read write remaining written writes rounds size bytes s (omega arith) r w)
        (copy_loop_stalls h writes rounds size (bytes + length r.chunk) w.after room
          (omega (arith, left, ap length w.source_kept)))
