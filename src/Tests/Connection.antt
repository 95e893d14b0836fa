-- ===== src/Tests/Connection.antt =====
-- The set-up of a connection of src/ssh/commons.rs and src/ssh/config.rs at concrete inputs.
use remotefs_rs_ssh.Prelude.{
  ℕ, ◌≡◌, refl, true, false, none, some, Option, List, [], ◌∷◌, ◌==◌, if◌then◌else◌, arith,
}
use remotefs_rs_ssh.Text.{Text, codes}
use remotefs_rs_ssh.Remotefs.{new, authentication_failed}
use remotefs_rs_ssh.Exec.{err}
use remotefs_rs_ssh.Host.{Host, answer}
use remotefs_rs_ssh.Ssh.Opts
use remotefs_rs_ssh.Ssh.Opts.{pubkey, mac_client_server, SshOpts}
use remotefs_rs_ssh.Ssh.Config.{Config, from_params}
use remotefs_rs_ssh.Ssh.Config.Address.{Parts, from_params-Parts}
use remotefs_rs_ssh.Ssh.Commons.Connect.{try_identities, try_attempts}
use remotefs_rs_ssh.Ssh.Commons.Connect.Identities.{Settled, try_identities-Settled}
use remotefs_rs_ssh.Ssh.Commons.Connect.Attempts.{rounds_of, Tried, try_attempts-Tried}
use remotefs_rs_ssh.Ssh.Commons.Connect.Prefs.{PrefsHost, index_of}
use remotefs_rs_ssh.Tests.Script.{scripted, quiet, no_params}

abbrev two_keys : List (List ℕ)
two_keys = (1 ∷ []) ∷ (2 ∷ []) ∷ []

try_identities-Settled_example :
    Settled scripted tt
      (codes "me")
      (pubkey (2 ∷ []))
      (err (new authentication_failed))
      two_keys
      quiet
      (try_identities scripted
        (pubkey (2 ∷ []))
        tt
        (codes "me")
        (err (new authentication_failed))
        two_keys
        quiet)
try_identities-Settled_example =
    try_identities-Settled scripted tt (codes "me") (pubkey (2 ∷ []))
      (err (new authentication_failed)) two_keys quiet

try_attempts-Tried_example :
    Tried scripted 0 (rounds_of 3 (tt ∷ [])) quiet (try_attempts scripted 3 0 (tt ∷ []) quiet)
try_attempts-Tried_example = try_attempts-Tried scripted 3 0 (tt ∷ []) quiet

-- A host that notes each preference, with the method in front.
abbrev noting : Host
noting = record scripted {
  method_pref = λ x m t w. (answer tt, record w { sent = (index_of m ∷ t) ∷ w.sent });
}

abbrev look_up : ℕ → List Text → Option Text
look_up k [] = none
look_up k ([] ∷ ls) = look_up k ls
look_up k ((c ∷ t) ∷ ls) = if c == k then some t else look_up k ls

abbrev noting_prefs : PrefsHost noting
noting_prefs = record {
  preferred = λ x k w. look_up (index_of k) w.sent;
  pref_law = λ x m k algos w e. refl;
  compress_law = λ x k b w. refl;
}

abbrev mac_opts : SshOpts (Unit {0})
mac_opts =
    Opts.with_method (Opts.new tt (codes "server"))
      (record { method_type = mac_client_server; algos = codes "b" ∷ codes "c" ∷ [] })

abbrev mac_config : Config
mac_config = from_params (record no_params { mac = some (codes "a" ∷ []) }) mac_opts

from_params-Parts_example :
    Parts
      (from_params (record no_params { port = some 2022 }) (Opts.new tt (codes "::1"))).address
      (from_params
        (record no_params { port = some 2022 })
        (Opts.new tt (codes "::1"))).resolved_host
      2022
from_params-Parts_example =
    from_params-Parts (record no_params { port = some 2022 }) (Opts.new tt (codes "::1"))
      (omega arith)

abbrev two_ciphers : Opts.KeyMethod
two_ciphers =
    Opts.key_method Opts.crypt_client_server (codes "aes128-ctr" ∷ codes "aes192-ctr" ∷ [])

listed : Opts.prefs two_ciphers ≡ codes "aes128-ctr,aes192-ctr"
unfolding Opts.prefs
listed = refl

matches : Opts.pubkey_matches (Opts.from_bytes (codes "hello")) (codes "hello") ≡ true
unfolding Opts.pubkey_matches
matches = refl

differs : Opts.pubkey_matches (Opts.from_bytes (codes "hello")) (codes "world") ≡ false
unfolding Opts.pubkey_matches
differs = refl
