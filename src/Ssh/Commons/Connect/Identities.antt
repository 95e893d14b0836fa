-- ===== src/Ssh/Commons/Connect/Identities.antt =====
-- src/ssh/commons.rs, `session_auth_with_agent`: which identities of the agent are tried.
use remotefs_rs_ssh.Prelude.{
  ◌≡◌, ◌≢◌, refl, ap, List, [], ◌∷◌, Bool-cases, inl, inr, true, false, ℕ, arith, sym,
}
use remotefs_rs_ssh.Text.{Text, text_eq}
use remotefs_rs_ssh.Text.Equal.{text_eq-≡, text_eq_refl}
use remotefs_rs_ssh.Remotefs.{new_ex, authentication_failed}
use remotefs_rs_ssh.Exec.{Outcome, ok, err}
use remotefs_rs_ssh.Foreign.{world_steps, Reply-cases}
use remotefs_rs_ssh.Host.{Host, answer, failure}
use remotefs_rs_ssh.Ssh.Opts.{SshAgentIdentity, all, pubkey, pubkey_matches}
use remotefs_rs_ssh.Ssh.Commons.Connect.{try_identities}

-- The identities that are wanted: every one, or those with just the given key.
abbrev pub Wants : SshAgentIdentity → List ℕ → Type 0
Wants all blob = Unit
Wants (pubkey key) blob = blob ≡ key

abbrev pub Unwanted : SshAgentIdentity → List ℕ → Type 0
Unwanted all blob = ⊥
Unwanted (pubkey key) blob = blob ≢ key

module _ (H : Host) (agent : H.Agent) (user : Text) where
  -- The wanted identities are offered to the server in order, until one is accepted; the others are
  -- passed over. The result is that of the last offer, or the given one without any.
  pub data Offered (wanted : SshAgentIdentity)
      : Outcome (Unit {0}) → List H.Identity → H.World → Outcome (Unit {0}) → H.World → Type 0 where
    no_more : (r : Outcome (Unit {0})) (w : H.World) → Offered wanted r [] w r w
    passed :
        (i : H.Identity) (is : List H.Identity) (r o : Outcome (Unit {0})) (w v : H.World)
        → Unwanted wanted (H.identity_blob i)
        → Offered wanted r is w o v
        → Offered wanted r (i ∷ is) w o v
    accepted :
        (i : H.Identity) (is : List H.Identity) (r : Outcome (Unit {0})) (w u : H.World)
        → Wants wanted (H.identity_blob i)
        → H.agent_userauth agent user i w ≡ (answer tt, u)
        → Offered wanted r (i ∷ is) w (ok tt) u
    denied :
        (i : H.Identity) (is : List H.Identity) (r o : Outcome (Unit {0})) (t : Text)
        (w u v : H.World)
        → Wants wanted (H.identity_blob i)
        → H.agent_userauth agent user i w ≡ (failure t, u)
        → Offered wanted (err (new_ex authentication_failed t)) is u o v
        → Offered wanted r (i ∷ is) w o v

  pub record Settled (wanted : SshAgentIdentity) (r : Outcome (Unit {0})) (is : List H.Identity)
      (w : H.World) (m : Outcome (Outcome (Unit {0})) × H.World) : Type 0 where
    pub result : Outcome (Unit {0})
    pub after : H.World
    pub returned : m ≡ (ok result, after)
    pub offered : Offered wanted r is w result after

  matched :
      (wanted : SshAgentIdentity) (blob : List ℕ)
      → pubkey_matches wanted blob ≡ true
      → Wants wanted blob
  unfolding pubkey_matches
  matched all blob h = tt
  matched (pubkey key) blob h = sym (text_eq-≡ key blob h)

  unmatched :
      (wanted : SshAgentIdentity) (blob : List ℕ)
      → pubkey_matches wanted blob ≡ false
      → Unwanted wanted blob
  unfolding pubkey_matches
  unmatched all blob h = ground (arith, h)
  unmatched (pubkey key) blob h =
      λ e. let m : text_eq key blob ≡ true = rw e (text_eq_refl key) in ground (arith, h, m)

  -- The identities of the agent whose key is the wanted one, all of them where none is given, are
  -- offered to the server in order, until one is accepted; those with another key are passed over.
  -- The result is that of the last offer, or the one given at the start where nothing is offered.
  pub try_identities-Settled :
      (wanted : SshAgentIdentity) (r : Outcome (Unit {0})) (is : List H.Identity) (w : H.World)
      → Settled wanted r is w (try_identities H wanted agent user r is w)
  unfolding try_identities world_steps
  try_identities-Settled wanted r [] w = record {
    result = r;
    after = w;
    returned = refl;
    offered = no_more r w;
  }
  try_identities-Settled wanted r (i ∷ is) w =
      let reply = H.agent_userauth agent user i w in
      elim (Bool-cases (pubkey_matches wanted (H.identity_blob i))) [
        | inr other ↦
            let rest = try_identities-Settled wanted r is w in
            record {
              result = rest.result;
              after = rest.after;
              returned = rw other rest.returned;
              offered =
                  passed i is r rest.result w rest.after
                    (unmatched wanted (H.identity_blob i) other) rest.offered;
            }
        | inl same ↦
            let wants = matched wanted (H.identity_blob i) same in
            elim (Reply-cases reply.0) [
              | inl (a, e) ↦ record {
                result = ok tt;
                after = reply.1;
                returned = rw (same, e);
                offered = accepted i is r w reply.1 wants (ap (λ o. (o, reply.1)) e);
              }
              | inr (t, e) ↦
                  let rest =
                    try_identities-Settled wanted (err (new_ex authentication_failed t)) is
                      reply.1 in
                  record {
                    result = rest.result;
                    after = rest.after;
                    returned = rw (same, e) rest.returned;
                    offered =
                        denied i is r rest.result t w reply.1 rest.after wants
                          (ap (λ o. (o, reply.1)) e) rest.offered;
                  }
            ]
      ]
