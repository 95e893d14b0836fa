-- ===== src/Ssh/Sftp/Transfer/Failing.antt =====
-- src/ssh/sftp.rs, the copying loop over streams that may fail at any call.
use remotefs_rs_ssh.Prelude.{
  ℕ, zero, suc, ◌+◌, ◌≤◌, ◌≡◌, refl, ◌∙◌, ap, sym, subst, List, [], ◌∷◌, ◌++◌, length, take, drop,
  ltb, take-append-drop, length-append, append_assoc, append-nil, arith, Bool-cases, inl, inr,
}
use remotefs_rs_ssh.Remotefs.{RemoteError, io_error}
use remotefs_rs_ssh.Exec.{steps, Exec, Outcome, ok, err, panic, diverged, branch, raise}
use remotefs_rs_ssh.Ssh.Sftp.Transfer.{write_all, copy_loop, buffer_size}
use remotefs_rs_ssh.Ssh.Sftp.Transfer.Complete.{write_chunk-fits}

-- An end with the count of the bytes that were moved, at least the size; with an error of a
-- stream; or none yet.
abbrev pub Ends : ℕ → Outcome ℕ → ℕ → Type 0
Ends size (ok n) moved = (n ≡ moved) × (size ≤ n)
Ends size (err e) moved = e.kind ≡ io_error
Ends size panic moved = ⊥
Ends size diverged moved = Unit

module _ {S : Type 0} (read : ℕ → Exec S (List ℕ)) (write : List ℕ → Exec S ℕ)
    (remaining written : S → List ℕ) where
  -- One `read` takes some of the remaining bytes, perhaps none and no more than asked for, or fails.
  pub data TryRead (n : ℕ) (s : S) : Type 0 where
    took :
        (chunk : List ℕ) (after : S)
        → read n s ≡ (ok chunk, after)
        → remaining s ≡ chunk ++ remaining after
        → length chunk ≤ n
        → written after ≡ written s
        → TryRead n s
    read_failed :
        (e : RemoteError) (after : S)
        → read n s ≡ (err e, after)
        → e.kind ≡ io_error
        → written after ≡ written s
        → TryRead n s

  -- One `write` puts a front part of the bytes, perhaps none, or fails.
  pub data TryWrite (bytes : List ℕ) (s : S) : Type 0 where
    put_part :
        (count : ℕ) (after : S)
        → write bytes s ≡ (ok count, after)
        → written after ≡ written s ++ take count bytes
        → remaining after ≡ remaining s
        → TryWrite bytes s
    write_failed :
        (e : RemoteError) (after : S)
        → write bytes s ≡ (err e, after)
        → e.kind ≡ io_error
        → written after ≡ written s
        → remaining after ≡ remaining s
        → TryWrite bytes s

  pub record MayFail : Type 0 where
    pub try_read : (n : ℕ) (s : S) → TryRead n s
    pub try_write : (bytes : List ℕ) (s : S) → TryWrite bytes s

  -- An end with all of the bytes written, with an error of a stream, or none yet.
  abbrev WriteEnds : Outcome (Unit {0}) → List ℕ → Type 0
  WriteEnds (ok u) rest = rest ≡ []
  WriteEnds (err e) rest = e.kind ≡ io_error
  WriteEnds panic rest = ⊥
  WriteEnds diverged rest = Unit

  record PartWritten (result : Outcome (Unit {0}) × S) (bytes : List ℕ) (s : S) : Type 0 where
    pub moved : List ℕ
    pub rest : List ℕ
    pub split : bytes ≡ moved ++ rest
    pub put : written result.1 ≡ written s ++ moved
    pub source_kept : remaining result.1 ≡ remaining s
    pub ends : WriteEnds result.0 rest

  nothing_written :
      (r : Outcome (Unit {0})) (bytes : List ℕ) (s t : S)
      → written t ≡ written s
      → remaining t ≡ remaining s
      → WriteEnds r bytes
      → PartWritten (r, t) bytes s
  nothing_written r bytes s t put kept ends = record {
    moved = [];
    rest = bytes;
    split = refl;
    put = put ∙ rw append-nil;
    source_kept = kept;
    ends = ends;
  }

  write_all-PartWritten :
      (h : MayFail) (fuel : ℕ) (bytes : List ℕ) (s : S)
      → PartWritten (write_all read write fuel bytes s) bytes s
  unfolding write_all steps
  write_all-PartWritten h fuel [] s = nothing_written (ok tt) [] s s refl refl refl
  write_all-PartWritten h zero (b ∷ rest) s = nothing_written diverged (b ∷ rest) s s refl refl tt
  write_all-PartWritten h (suc fuel) (b ∷ rest) s = elim (h.try_write (b ∷ rest) s) [
    | put_part count after e put kept ↦
        let w = write_all-PartWritten h fuel (drop count (b ∷ rest)) after in
        rw e (record {
          moved = take count (b ∷ rest) ++ w.moved;
          rest = w.rest;
          split =
              sym (take-append-drop count (b ∷ rest))
              ∙ ap (λ t. take count (b ∷ rest) ++ t) w.split
              ∙ rw append_assoc;
          put = w.put ∙ rw (put, append_assoc);
          source_kept = w.source_kept ∙ kept;
          ends = w.ends;
        })
    | write_failed x after e kind put kept ↦
        rw e (nothing_written (err x) (b ∷ rest) s after put kept kind)
  ]

  -- What was written is a front part of what was to be read.
  pub record Prefix (size bytes : ℕ) (result : Outcome ℕ × S) (s : S) : Type 0 where
    pub moved : List ℕ
    pub rest : List ℕ
    pub front : remaining s ≡ moved ++ rest
    pub put : written result.1 ≡ written s ++ moved
    pub ends : Ends size result.0 (bytes + length moved)

  nothing_moved :
      (size bytes : ℕ) (r : Outcome ℕ) (s t : S)
      → written t ≡ written s
      → Ends size r (bytes + 0)
      → Prefix size bytes (r, t) s
  nothing_moved size bytes r s t put ends = record {
    moved = [];
    rest = remaining s;
    front = refl;
    put = put ∙ rw append-nil;
    ends = ends;
  }

  -- The transfer ends in the middle of a chunk.
  inside_chunk :
      (size bytes : ℕ) (chunk : List ℕ) (s t u : S) (r : Outcome (Unit {0})) (r' : Outcome ℕ)
      → remaining s ≡ chunk ++ remaining t
      → written t ≡ written s
      → (w : PartWritten (r, u) chunk t) → Ends size r' (bytes + length w.moved)
      → Prefix size bytes (r', u) s
  inside_chunk size bytes chunk s t u r r' taken kept w ends = record {
    moved = w.moved;
    rest = w.rest ++ remaining t;
    front = taken ∙ ap (λ c. c ++ remaining t) w.split ∙ rw append_assoc;
    put = w.put ∙ ap (λ v. v ++ w.moved) kept;
    ends = ends;
  }

  -- The loop behind a chunk that was written, or the end with a part of it.
  behind_chunk :
      (size bytes : ℕ) (chunk : List ℕ) (s t : S) (k : Exec S ℕ) (r : Outcome (Unit {0})) (u : S)
      → remaining s ≡ chunk ++ remaining t
      → written t ≡ written s
      → PartWritten (r, u) chunk t
      → Prefix size (bytes + length chunk) (k u) u
      → Prefix size bytes (branch (λ _. k) raise r u) s
  unfolding steps
  behind_chunk size bytes chunk s t k (ok x) u taken kept w c =
      let whole : chunk ≡ w.moved = w.split ∙ rw (w.ends, append-nil) in
      record {
        moved = chunk ++ c.moved;
        rest = c.rest;
        front = taken ∙ ap (λ v. chunk ++ v) (sym w.source_kept ∙ c.front) ∙ rw append_assoc;
        put =
            c.put
            ∙ ap (λ v. v ++ c.moved)
                (w.put ∙ ap (λ v. written t ++ v) (sym whole) ∙ ap (λ v. v ++ chunk) kept)
            ∙ rw append_assoc;
        ends = subst (Ends size (k u).0) (omega (arith, length-append chunk c.moved)) c.ends;
      }
  behind_chunk size bytes chunk s t k (err e) u taken kept w c =
      inside_chunk size bytes chunk s t u (err e) (err e) taken kept w w.ends
  behind_chunk size bytes chunk s t k panic u taken kept w c = absurd w.ends
  behind_chunk size bytes chunk s t k diverged u taken kept w c =
      inside_chunk size bytes chunk s t u diverged diverged taken kept w tt

  pub copy_loop-Prefix :
      (h : MayFail) (writes rounds size bytes : ℕ) (s : S)
      → Prefix size bytes (copy_loop read write writes rounds size bytes s) s
  unfolding copy_loop steps
  copy_loop-Prefix h writes zero size bytes s = elim (Bool-cases (ltb bytes size)) [
    | inl more ↦ rw more (nothing_moved size bytes diverged s s refl tt)
    | inr full ↦ rw full (nothing_moved size bytes (ok bytes) s s refl (omega arith, ground arith))
  ]
  copy_loop-Prefix h writes (suc rounds) size bytes s = elim (Bool-cases (ltb bytes size)) [
    | inl more ↦ rw more (elim (h.try_read buffer_size s) [
      | took chunk t e taken fits kept ↦
          rw (e, write_chunk-fits read write remaining written writes chunk t fits)
            (behind_chunk size bytes chunk s t
              (copy_loop read write writes rounds size (bytes + length chunk))
              (write_all read write writes chunk t).0 (write_all read write writes chunk t).1 taken
              kept (write_all-PartWritten h writes chunk t)
              (copy_loop-Prefix h writes rounds size (bytes + length chunk)
                (write_all read write writes chunk t).1))
      | read_failed x t e kind kept ↦ rw e (nothing_moved size bytes (err x) s t kept kind)
    ])
    | inr full ↦ rw full (nothing_moved size bytes (ok bytes) s s refl (omega arith, ground arith))
  ]
