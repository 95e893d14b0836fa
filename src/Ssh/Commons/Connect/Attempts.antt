-- ===== src/Ssh/Commons/Connect/Attempts.antt =====
-- src/ssh/commons.rs, connect: the attempts on the addresses of the host.
use remotefs_rs_ssh.Prelude.{
  ℕ, zero, suc, ◌≡◌, refl, ap, inl, inr, ◌∙◌, sym, arith, Option, none, some, List, [], ◌∷◌, ◌++◌,
}
use remotefs_rs_ssh.Exec.{Exec, Outcome, ok, pure, ◌>>=◌}
use remotefs_rs_ssh.Exec.Laws.{handle_cong, handle_bind, pure_bind}
use remotefs_rs_ssh.Text.{Text}
use remotefs_rs_ssh.Remotefs.{new_ex, connection_error}
use remotefs_rs_ssh.Foreign.{call, world_steps, Reply-cases}
use remotefs_rs_ssh.Host.{Host, Reply, answer, failure}
use remotefs_rs_ssh.Ssh.Commons.Connect.{tcp_connect, try_addresses, try_attempts, unless_found}

-- The list, a number of times.
abbrev pub rounds_of : {A : Type 0} → ℕ → List A → List A
rounds_of zero xs = []
rounds_of (suc n) xs = xs ++ rounds_of n xs

module _ (H : Host) where
  try_addresses-append :
      (timeout : ℕ) (xs ys : List H.SocketAddr) (w : H.World)
      → try_addresses H timeout (xs ++ ys) w
        ≡ (try_addresses H timeout xs >>= unless_found H (try_addresses H timeout ys)) w
  unfolding try_addresses
  try_addresses-append timeout [] ys w =
      sym (pure_bind none (unless_found H (try_addresses H timeout ys)) w)
  try_addresses-append timeout (a ∷ xs) ys w =
      handle_cong (tcp_connect H a timeout) _ _ _ _
        (λ s v. sym (pure_bind (some s) (unless_found H (try_addresses H timeout ys)) v))
        (λ e v. try_addresses-append timeout xs ys v) w
      ∙ sym (
          handle_bind (tcp_connect H a timeout) (λ s. pure (some s))
            (λ e. try_addresses H timeout xs) (unless_found H (try_addresses H timeout ys)) w)

  unless_found_cong :
      (found : Option H.TcpStream) (m k : Exec H.World (Option H.TcpStream))
      → ((v : H.World) → m v ≡ k v)
      → (v : H.World) → unless_found H m found v ≡ unless_found H k found v
  unless_found_cong (some s) m k h v = refl
  unless_found_cong none m k h v = h v

  -- The attempts are one pass over the addresses, repeated as often as there are attempts.
  try_attempts-rounds_of :
      (n timeout : ℕ) (xs : List H.SocketAddr) (w : H.World)
      → try_attempts H n timeout xs w ≡ try_addresses H timeout (rounds_of n xs) w
  unfolding try_attempts ◌>>=◌
  try_attempts-rounds_of zero timeout xs w = unfold try_addresses in refl
  try_attempts-rounds_of (suc n) timeout xs w =
      handle_cong (try_addresses H timeout xs) _ _ _ _
        (λ found v. unless_found_cong found _ _ (λ u. try_attempts-rounds_of n timeout xs u) v)
        (λ e v. refl) w
      ∙ sym (try_addresses-append timeout xs (rounds_of n xs) w)

  -- A call of one address, with the timeout in nanoseconds; zero is no timeout.
  abbrev pub dial : ℕ → H.SocketAddr → H.World → Reply H.TcpStream × H.World
  dial zero a w = H.tcp_connect a w
  dial (suc t) a w = H.tcp_connect_timeout a (suc t) w

  -- The addresses are called in order, from one world to the next, until one answers.
  pub data Dialled (timeout : ℕ)
      : List H.SocketAddr → H.World → Option H.TcpStream → H.World → Type 0 where
    unanswered : (w : H.World) → Dialled timeout [] w none w
    refused :
        (a : H.SocketAddr) (rest : List H.SocketAddr) (text : Text) (w u v : H.World)
        (o : Option H.TcpStream)
        → dial timeout a w ≡ (failure text, u)
        → Dialled timeout rest u o v
        → Dialled timeout (a ∷ rest) w o v
    answered :
        (a : H.SocketAddr) (rest : List H.SocketAddr) (s : H.TcpStream) (w u : H.World)
        → dial timeout a w ≡ (answer s, u)
        → Dialled timeout (a ∷ rest) w (some s) u

  -- A result, and the calls that led to it.
  pub record Tried (timeout : ℕ) (rest : List H.SocketAddr) (w : H.World)
      (r : Outcome (Option H.TcpStream) × H.World) : Type 0 where
    pub found : Option H.TcpStream
    pub after : H.World
    pub returned : r ≡ (ok found, after)
    pub dialled : Dialled timeout rest w found after

  tcp_connect-dial :
      (timeout : ℕ) (a : H.SocketAddr) (w : H.World)
      → tcp_connect H a timeout w ≡ call (new_ex connection_error) (dial timeout a) w
  unfolding tcp_connect call
  tcp_connect-dial zero a w = refl
  tcp_connect-dial (suc t) a w = ground arith

  try_addresses-Tried :
      (timeout : ℕ) (rest : List H.SocketAddr) (w : H.World)
      → Tried timeout rest w (try_addresses H timeout rest w)
  unfolding try_addresses world_steps
  try_addresses-Tried timeout [] w = record {
    found = none;
    after = w;
    returned = refl;
    dialled = unanswered w;
  }
  try_addresses-Tried timeout (a ∷ rest) w = elim (Reply-cases (dial timeout a w).0) [
    | inl (s, e) ↦ record {
      found = some s;
      after = (dial timeout a w).1;
      returned = rw (tcp_connect-dial timeout a w, e);
      dialled = answered a rest s w (dial timeout a w).1 (ap (λ o. (o, (dial timeout a w).1)) e);
    }
    | inr (t, e) ↦
        let tail = try_addresses-Tried timeout rest (dial timeout a w).1 in
        record {
          found = tail.found;
          after = tail.after;
          returned = rw (tcp_connect-dial timeout a w, e) tail.returned;
          dialled =
              refused a rest t w (dial timeout a w).1 tail.after tail.found
                (ap (λ o. (o, (dial timeout a w).1)) e) tail.dialled;
        }
  ]

  -- The attempts to connect never fail. They call the addresses in order, the list once for each
  -- attempt and each call in the world that the last one left, with the timeout unless it is zero,
  -- until one answers. The result is the stream of that answer, and none where no address answers.
  pub try_attempts-Tried :
      (n timeout : ℕ) (rest : List H.SocketAddr) (w : H.World)
      → Tried timeout (rounds_of n rest) w (try_attempts H n timeout rest w)
  try_attempts-Tried n timeout rest w =
      rw (try_attempts-rounds_of n timeout rest w)
        (try_addresses-Tried timeout (rounds_of n rest) w)
