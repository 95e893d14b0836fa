-- ===== src/Ssh/Commons/Connect/Prefs.antt =====
-- src/ssh/commons.rs, `set_algo_prefs`: which algorithms a session prefers in the end.
use remotefs_rs_ssh.Prelude.{
  ℕ, ◌≡◌, Bool, Option, none, some, List, [], ◌∷◌, ◌++◌, map, ◌==◌, if◌then◌else◌,
}
use remotefs_rs_ssh.Text.{Text, codes, join}
use remotefs_rs_ssh.Exec.{Exec, ok}
use remotefs_rs_ssh.Host.{
  Host, HostParams, SshMethodType, answer, kex, host_key, crypt_cs, crypt_sc, mac_cs, mac_sc,
}
use remotefs_rs_ssh.Ssh.Opts.{SshOpts, prefs, ssh_method_type}
use remotefs_rs_ssh.Ssh.Config.{Config}
use remotefs_rs_ssh.Ssh.Commons.Connect.{method_pref}

abbrev pub index_of : SshMethodType → ℕ
index_of kex = 0
index_of host_key = 1
index_of crypt_cs = 2
index_of crypt_sc = 3
index_of mac_cs = 4
index_of mac_sc = 5

-- What a session prefers for each method, as ssh2 documents `method_pref`: a call that succeeds sets
-- the method's own list. Compression is not among them.
pub record PrefsHost (H : Host) : Type 0 where
  pub preferred : H.Session → SshMethodType → H.World → Option Text
  pub pref_law :
      (x : H.Session) (m k : SshMethodType) (algos : Text) (w : H.World)
      → (H.method_pref x m algos w).0 ≡ answer tt
      → preferred x k (H.method_pref x m algos w).1
        ≡ (if index_of m == index_of k then some algos else preferred x k w)
  pub compress_law :
      (x : H.Session) (k : SshMethodType) (b : Bool) (w : H.World)
      → preferred x k (H.set_compress x b w) ≡ preferred x k w

-- The last list that is given for a method, or what was there.
abbrev pub last_for : SshMethodType → List (SshMethodType × Text) → Option Text → Option Text
last_for k [] start = start
last_for k ((m, algos) ∷ rest) start =
    last_for k rest (if index_of m == index_of k then some algos else start)

abbrev pub given : List SshMethodType → Option (List Text) → List (SshMethodType × Text)
given ms none = []
given ms (some algos) = map (λ m. (m, join (codes ",") algos)) ms

-- The lists of the configuration, then those of the options.
abbrev pub preferences :
    {ParseRule : Type 0} → SshOpts ParseRule → HostParams → List (SshMethodType × Text)
preferences opts params =
    given (kex ∷ []) params.kex_algorithms
    ++ (given (host_key ∷ []) params.host_key_algorithms
        ++ (given (crypt_cs ∷ crypt_sc ∷ []) params.ciphers
            ++ (given (mac_cs ∷ mac_sc ∷ []) params.mac
                ++ map (λ m. (ssh_method_type m.method_type, prefs m)) opts.methods)))

module _ (H : Host) (host : PrefsHost H) (x : H.Session) (k : SshMethodType) where
  -- An action that succeeds gives these lists, in this order.
  record Gives (m : Exec H.World (Unit {0})) (l : List (SshMethodType × Text)) : Type 0 where
    pub at :
        (w : H.World)
        → (m w).0 ≡ ok tt
        → host.preferred x k (m w).1 ≡ last_for k l (host.preferred x k w)
