-- ===== src/Ssh/Sftp/Panics.antt =====
-- src/ssh/sftp.rs, panics: the copying loop, the check of the connection, and the handles behind
-- it, of a client that has both a session and an SFTP channel, or neither.
pub mod Ops
pub mod Transfers
use remotefs_rs_ssh.Prelude.{
  ℕ, zero, suc, ◌≡◌, refl, ap, sym, subst, ◌∙◌, true, false, Option, none, some, is_some, List, [],
  ◌∷◌, Bool-cases, inl, inr, ◌≤◌, ◌+◌, length, ltb, arith,
}
use remotefs_rs_ssh.Text.{Text}
use remotefs_rs_ssh.Remotefs.{new, not_connected, RemoteError}
use remotefs_rs_ssh.Exec.{Exec, ok, err, steps, ◌>>=◌, ◌>>◌}
use remotefs_rs_ssh.Exec.Calm.{
  NoPanic, Calm, Calm-if, Calm-bind, Calm-bind_knowing, Calm-pure, calm_rules,
}
use remotefs_rs_ssh.Foreign.{on_world, world_steps, call, Reply-cases}
use remotefs_rs_ssh.Host.{Host, Reply}
use remotefs_rs_ssh.Ssh.Sftp.Client.{
  SftpFs, SftpState, check_connection, is_connected, given_sftp, with_sftp, sftp_ref, session_live,
}
use remotefs_rs_ssh.Ssh.Sftp.Transfer.{write_all, write_chunk, copy_loop, buffer_size}
use remotefs_rs_ssh.Ssh.Sftp.Calls.Handles.{IsPaired}

module _ {S : Type 0} (P : S → Type 0) (read : ℕ → Exec S (List ℕ)) (write : List ℕ → Exec S ℕ)
    (reads : (n : ℕ) → Calm P (read n))
    (fits : (n : ℕ) (s : S) (chunk : List ℕ) → (read n s).0 ≡ ok chunk → length chunk ≤ n)
    (writes_ok : (bytes : List ℕ) → Calm P (write bytes)) where
  write_all-Calm : (fuel : ℕ) (bytes : List ℕ) → Calm P (write_all read write fuel bytes)
  unfolding write_all
  write_all-Calm fuel [] = search calm_rules
  write_all-Calm zero (b ∷ bs) = search calm_rules
  write_all-Calm (suc fuel) (b ∷ bs) = search (calm_rules, writes_ok, write_all-Calm fuel)

  write_chunk-Calm :
      (fuel : ℕ) (chunk : List ℕ)
      → length chunk ≤ buffer_size
      → Calm P (write_chunk read write fuel chunk)
  unfolding write_chunk
  write_chunk-Calm fuel chunk h =
      let fits : ltb buffer_size (length chunk) ≡ false = ground (arith, h) in
      rw fits (write_all-Calm fuel chunk)

  pub copy_loop-Calm :
      (writes rounds size bytes : ℕ) → Calm P (copy_loop read write writes rounds size bytes)
  unfolding copy_loop
  copy_loop-Calm writes zero size bytes = search calm_rules
  copy_loop-Calm writes (suc rounds) size bytes =
      Calm-if P _ _ _
        (Calm-bind_knowing P (λ chunk. length chunk ≤ buffer_size) _ _ (reads buffer_size)
          (fits buffer_size)
          (λ chunk h.
            Calm-bind P _ _ (write_chunk-Calm writes chunk h)
              (λ u. copy_loop-Calm writes rounds size (bytes + length chunk))))
        (Calm-pure P bytes)

module _ (H : Host) where
  -- A client with both handles.
  pub record HasBoth (c : SftpFs H) : Type 0 where
    pub session : H.Session
    pub sftp : H.Sftp
    pub open_session : c.session ≡ some session
    pub open_sftp : c.sftp ≡ some sftp

  -- What a condition on the client is on the state.
  abbrev pub OnClient : (SftpFs H → Type 0) → SftpState H → Type 0
  OnClient Q s = Q s.client

  abbrev pub Paired : SftpState H → Type 0
  Paired = OnClient IsPaired

  HasBoth-IsPaired : (c : SftpFs H) → HasBoth c → IsPaired c
  HasBoth-IsPaired c h = rw (h.open_session, h.open_sftp)

  IsPaired-HasBoth : (c : SftpFs H) (y : H.Session) → c.session ≡ some y → IsPaired c → HasBoth c
  IsPaired-HasBoth c y e h = go c.sftp refl
    where
      go : (o : Option H.Sftp) → c.sftp ≡ o → HasBoth c
      go (some x) k = record { session = y; sftp = x; open_session = e; open_sftp = k }
      go none k = cc (sym (ap is_some e) ∙ h ∙ ap is_some k)

  sftp-HasBoth : (c : SftpFs H) (x : H.Sftp) → c.sftp ≡ some x → IsPaired c → HasBoth c
  sftp-HasBoth c x e h = go c.session refl
    where
      go : (o : Option H.Session) → c.session ≡ o → HasBoth c
      go (some y) k = record { session = y; sftp = x; open_session = k; open_sftp = e }
      go none k = cc (sym (ap is_some k) ∙ h ∙ ap is_some e)

  -- A condition on the client outlives any change of the world.
  pub call-Calm :
      {A : Type 0} (Q : SftpFs H → Type 0) (k : Text → RemoteError)
      (f : H.World → Reply A × H.World)
      → Calm (OnClient Q) (on_world (call k f))
  unfolding world_steps
  call-Calm Q k f = record {
    at = λ s h. elim (Reply-cases (f s.world).0) [
      | inl (a, e) ↦ rw e (tt, h)
      | inr (t, e) ↦ rw e (tt, h)
    ];
  }

  pub given_sftp-Calm :
      {A : Type 0} (P : SftpState H → Type 0) (f : H.Sftp → Exec (SftpState H) A)
      (o : Option H.Sftp)
      → ((x : H.Sftp) → Calm P (f x))
      → Calm P (given_sftp H f o)
  given_sftp-Calm P f none h = search calm_rules
  given_sftp-Calm P f (some x) h = h x

  module _ {A : Type 0} (m : Exec (SftpState H) A) (s : SftpState H) where
    check_passes :
        session_live H s.client.session s.world ≡ true → (check_connection H >> m) s ≡ m s
    unfolding check_connection is_connected steps
    check_passes h = rw h

    check_fails :
        session_live H s.client.session s.world ≡ false
        → (check_connection H >> m) s ≡ (err (new not_connected), s)
    unfolding check_connection is_connected steps
    check_fails h = rw h

  -- Behind the check of the connection both handles are there.
  pub check-Calm :
      {A : Type 0} (m : Exec (SftpState H) A)
      → Calm (OnClient HasBoth) m
      → Calm Paired (check_connection H >> m)
  check-Calm {A} m h = record { at = λ s paired. go s paired s.client.session refl }
    where
      go :
          (s : SftpState H)
          → Paired s
          → (o : Option H.Session) → s.client.session ≡ o
          → NoPanic ((check_connection H >> m) s).0 × Paired ((check_connection H >> m) s).1
      go s paired none e = rw (check_fails m s (rw e)) (tt, paired)
      go s paired (some y) e = elim (Bool-cases (H.authenticated y s.world)) [
        | inl live ↦
            let k = h.at s (IsPaired-HasBoth s.client y e paired) in
            rw (check_passes m s (rw (e, live))) (k.0, HasBoth-IsPaired _ k.1)
        | inr dead ↦ rw (check_fails m s (rw (e, dead))) (tt, paired)
      ]

  -- So they are where the channel is.
  pub with_sftp-Calm :
      {A : Type 0} (f : H.Sftp → Exec (SftpState H) A)
      → ((x : H.Sftp) → Calm (OnClient HasBoth) (f x))
      → Calm Paired (with_sftp H f)
  unfolding steps
  with_sftp-Calm {A} f h = record { at = λ s paired. go s paired s.client.sftp refl }
    where
      go :
          (s : SftpState H)
          → Paired s
          → (o : Option H.Sftp) → s.client.sftp ≡ o
          → NoPanic (given_sftp H f s.client.sftp s).0 × Paired (given_sftp H f s.client.sftp s).1
      go s paired none e =
          subst (λ o. NoPanic (given_sftp H f o s).0 × Paired (given_sftp H f o s).1) (sym e)
            (tt, paired)
      go s paired (some x) e =
          let k = (h x).at s (sftp-HasBoth s.client x e paired) in
          subst (λ o. NoPanic (given_sftp H f o s).0 × Paired (given_sftp H f o s).1) (sym e)
            (k.0, HasBoth-IsPaired (f x s).1.client k.1)

  sftp_ref_there :
      {A : Type 0} (f : H.Sftp → Exec (SftpState H) A) (s : SftpState H) (x : H.Sftp)
      → s.client.sftp ≡ some x
      → (sftp_ref H >>= f) s ≡ f x s
  unfolding steps
  sftp_ref_there f s x e = rw e

  pub sftp_ref-Calm :
      {A : Type 0} (f : H.Sftp → Exec (SftpState H) A)
      → ((x : H.Sftp) → Calm (OnClient HasBoth) (f x))
      → Calm (OnClient HasBoth) (sftp_ref H >>= f)
  sftp_ref-Calm f h = record {
    at = λ s both. rw (sftp_ref_there f s both.sftp both.open_sftp) ((h both.sftp).at s both);
  }
