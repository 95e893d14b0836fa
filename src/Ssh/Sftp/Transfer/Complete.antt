-- ===== src/Ssh/Sftp/Transfer/Complete.antt =====
-- src/ssh/sftp.rs, the copying loop over streams that keep to their contracts.
use remotefs_rs_ssh.Prelude.{
  ℕ, zero, suc, ◌+◌, ◌≤◌, ◌<◌, ◌≡◌, ◌≢◌, refl, ◌∙◌, ap, List, [], ◌∷◌, ◌++◌, length, drop, ltb,
  take-append-drop, length-drop, length-append, append_assoc, append-nil, arith, Bool-cases, inl,
  inr, ltb→lt, lt→ltb,
}
use native.Mathlib.Nat.{add-zero, zero-add, add_assoc}
use remotefs_rs_ssh.Exec.{steps, Exec, ok}
use remotefs_rs_ssh.Ssh.Sftp.Transfer.{write_all, write_chunk, copy_loop, buffer_size}
use remotefs_rs_ssh.Ssh.Sftp.Transfer.Streams.{IsStream, ReadStep, WriteStep}

module _ {S : Type 0} (read : ℕ → Exec S (List ℕ)) (write : List ℕ → Exec S ℕ)
    (remaining written : S → List ℕ) where
  -- The chunk is written whole, and the source is left as it was.
  pub record Written (fuel : ℕ) (bytes : List ℕ) (s : S) : Type 0 where
    pub after : S
    pub returns : write_all read write fuel bytes s ≡ (ok tt, after)
    pub put : written after ≡ written s ++ bytes
    pub source_kept : remaining after ≡ remaining s

  write_all-more :
      (fuel : ℕ) (b : ℕ) (rest : List ℕ) (s : S)
      (w : WriteStep write remaining written (b ∷ rest) s)
      → write_all read write (suc fuel) (b ∷ rest) s
        ≡ write_all read write fuel (drop w.count (b ∷ rest)) w.after
  unfolding write_all steps
  write_all-more fuel b rest s w = rw (w.returns)

  pub write_all-Written :
      (h : IsStream read write remaining written) (fuel : ℕ) (bytes : List ℕ) (s : S)
      → length bytes ≤ fuel
      → Written fuel bytes s
  write_all-Written h fuel [] s enough = record {
    after = s;
    returns = unfold write_all steps in refl;
    put = rw append-nil;
    source_kept = refl;
  }
  write_all-Written h zero (b ∷ rest) s enough = elim enough [ ]
  write_all-Written h (suc fuel) (b ∷ rest) s enough =
      let w = h.write_step (b ∷ rest) s (cc) in
      let r =
        write_all-Written h fuel (drop w.count (b ∷ rest)) w.after
          (rw length-drop (omega (arith, w.progress))) in
      record {
        after = r.after;
        returns = write_all-more fuel b rest s w ∙ r.returns;
        put = r.put ∙ rw (w.put, append_assoc, take-append-drop w.count (b ∷ rest));
        source_kept = r.source_kept ∙ w.source_kept;
      }

  -- The loop returned its count on top of `bytes`, having moved `moved` from the source to the sink.
  record Copied (writes rounds size bytes : ℕ) (s : S) : Type 0 where
    pub moved : List ℕ
    pub after : S
    pub returns :
        copy_loop read write writes rounds size bytes s ≡ (ok (bytes + length moved), after)
    pub taken : remaining s ≡ moved ++ remaining after
    pub put : written after ≡ written s ++ moved
    pub reaches : size ≤ bytes + length moved
    pub stops : bytes < size + buffer_size → bytes + length moved < size + buffer_size

  copy_loop-done :
      (writes rounds size bytes : ℕ) (s : S)
      → size ≤ bytes
      → copy_loop read write writes rounds size bytes s ≡ (ok bytes, s)
  unfolding copy_loop steps
  copy_loop-done writes zero size bytes s h = ground arith
  copy_loop-done writes (suc rounds) size bytes s h = ground arith

  -- A chunk that fits into the buffer is written.
  pub write_chunk-fits :
      (fuel : ℕ) (chunk : List ℕ) (s : S)
      → length chunk ≤ buffer_size
      → write_chunk read write fuel chunk s ≡ write_all read write fuel chunk s
  unfolding write_chunk
  write_chunk-fits fuel chunk s h = ground arith

  pub copy_loop-round :
      (writes rounds size bytes : ℕ) (s : S)
      → bytes < size
      → (r : ReadStep read remaining written buffer_size s) (w : Written writes r.chunk r.after)
      → copy_loop read write writes (suc rounds) size bytes s
        ≡ copy_loop read write writes rounds size (bytes + length r.chunk) w.after
  copy_loop-round writes rounds size bytes s more r w =
      unfold copy_loop steps in
      rw (
        lt→ltb bytes size more,
        r.returns,
        write_chunk-fits writes r.chunk r.after r.fits,
        w.returns,
      )

  copy_loop-finished :
      (writes rounds size bytes : ℕ) (s : S) → size ≤ bytes → Copied writes rounds size bytes s
  copy_loop-finished writes rounds size bytes s h = record {
    moved = [];
    after = s;
    returns = copy_loop-done writes rounds size bytes s h ∙ rw add-zero;
    taken = refl;
    put = rw append-nil;
    reaches = omega arith;
    stops = λ b. omega arith;
  }

  copy_loop-step :
      (writes rounds size bytes : ℕ) (s : S)
      → bytes < size
      → (r : ReadStep read remaining written buffer_size s) (w : Written writes r.chunk r.after)
      → Copied writes rounds size (bytes + length r.chunk) w.after
      → Copied writes (suc rounds) size bytes s
  copy_loop-step writes rounds size bytes s more r w c = record {
    moved = r.chunk ++ c.moved;
    after = c.after;
    returns =
        copy_loop-round writes rounds size bytes s more r w
        ∙ c.returns
        ∙ rw (length-append r.chunk c.moved, add_assoc bytes (length r.chunk) (length c.moved));
    taken = r.taken ∙ rw (← w.source_kept, c.taken, append_assoc);
    put = c.put ∙ rw (w.put, r.sink_kept, append_assoc);
    reaches = omega (arith, length-append r.chunk c.moved, c.reaches);
    stops = λ b. omega (arith, length-append r.chunk c.moved, c.stops (omega (arith, r.fits)));
  }

  unread : (s : S) → 0 < length (remaining s) → remaining s ≢ []
  unread s h e = absurd (omega (arith, ap length e))

  copy_loop-Copied :
      (h : IsStream read write remaining written) (writes rounds size bytes : ℕ) (s : S)
      → buffer_size ≤ writes
      → size ≤ bytes + rounds
      → size ≤ bytes + length (remaining s)
      → Copied writes rounds size bytes s
  copy_loop-Copied h writes zero size bytes s room fuel enough =
      copy_loop-finished writes zero size bytes s (omega arith)
  copy_loop-Copied h writes (suc rounds) size bytes s room fuel enough =
      elim (Bool-cases (ltb bytes size)) [
        | inl more ↦
            let r = h.read_step buffer_size s (omega arith) in
            let some_read = r.progress (unread s (omega (arith, ltb→lt bytes size more))) in
            let w = write_all-Written h writes r.chunk r.after (omega (arith, r.fits)) in
            let left = ap length r.taken ∙ length-append r.chunk (remaining r.after) in
            copy_loop-step writes rounds size bytes s (ltb→lt bytes size more) r w (
              copy_loop-Copied h writes rounds size (bytes + length r.chunk) w.after room
                (omega (arith, some_read)) (omega (arith, left, ap length w.source_kept)))
        | inr full ↦ copy_loop-finished writes (suc rounds) size bytes s (ground arith)
      ]

  -- A whole transfer: what it returns, what it took from the source and put into the sink, and
  -- between which bounds its length lies.
  pub record Transferred (writes rounds size : ℕ) (s : S) : Type 0 where
    pub moved : List ℕ
    pub after : S
    pub returns : copy_loop read write writes rounds size 0 s ≡ (ok (length moved), after)
    pub taken : remaining s ≡ moved ++ remaining after
    pub put : written after ≡ written s ++ moved
    pub reaches : size ≤ length moved
    pub stops : length moved < size + buffer_size

  -- From a source that holds at least `size` bytes, over streams that keep to the contracts of
  -- Read and Write, the copying loop ends within `size` rounds of at most `buffer_size` writes
  -- each. It returns the number of bytes that it moved, which are a front part of the source, in
  -- order and complete in the sink; they are at least `size`, and less than one buffer more.
  pub copy_loop-Transferred :
      (h : IsStream read write remaining written) (writes rounds size : ℕ) (s : S)
      → buffer_size ≤ writes
      → size ≤ rounds
      → size ≤ length (remaining s)
      → Transferred writes rounds size s
  copy_loop-Transferred h writes rounds size s room fuel enough =
      let c = copy_loop-Copied h writes rounds size 0 s room (omega arith) (omega arith) in
      record {
        moved = c.moved;
        after = c.after;
        returns = c.returns ∙ rw (zero-add (length c.moved));
        taken = c.taken;
        put = c.put;
        reaches = omega (arith, c.reaches);
        stops = omega (arith, c.stops (omega arith));
      }
