-- ===== src/Ssh/Opts.antt =====
-- src/ssh/mod.rs: the options of a client, key methods and agent identities.
use remotefs_rs_ssh.Prelude.{ℕ, Bool, true, Option, none, some, List, [], ◌∷◌, ◌++◌}
use remotefs_rs_ssh.Text.{Text, codes, text_eq, join}
use remotefs_rs_ssh.Host.{SshMethodType, crypt_cs, crypt_sc, mac_cs, mac_sc}

-- Re-implementation of ssh key method
pub data MethodType : Type 0 where
  crypt_client_server crypt_server_client host_key kex : MethodType
  mac_client_server mac_server_client : MethodType

-- `From<MethodType> for SshMethodType`
unfoldable pub ssh_method_type : MethodType → SshMethodType
ssh_method_type crypt_client_server = crypt_cs
ssh_method_type crypt_server_client = crypt_sc
ssh_method_type MethodType.host_key = SshMethodType.host_key
ssh_method_type MethodType.kex = SshMethodType.kex
ssh_method_type mac_client_server = mac_cs
ssh_method_type mac_server_client = mac_sc

pub record KeyMethod : Type 0 where
  pub method_type : MethodType
  pub algos : List Text

-- `KeyMethod::new`
abbrev pub key_method : MethodType → List Text → KeyMethod
key_method t algos = record { method_type = t; algos = algos }

-- Get preferred algos in ssh protocol syntax
unfoldable pub prefs : KeyMethod → Text
unfolding join
prefs m = join (codes ",") m.algos

pub data SshAgentIdentity : Type 0 where
  all : SshAgentIdentity
  pubkey : List ℕ → SshAgentIdentity

-- `From<Vec<u8>>` and `From<&[u8]>` for `SshAgentIdentity`
abbrev pub from_bytes : List ℕ → SshAgentIdentity
from_bytes v = pubkey v

-- Check if the provided public key matches the identity
unfoldable pub pubkey_matches : SshAgentIdentity → List ℕ → Bool
unfolding text_eq
pubkey_matches all blob = true
pubkey_matches (pubkey v) blob = text_eq v blob

-- The key storage is its method `resolve`; a duration is in nanoseconds.
pub record SshOpts (ParseRule : Type 0) : Type 0 where
  pub host : Text
  pub port : Option ℕ
  pub username : Option Text
  pub password : Option Text
  pub connection_timeout : Option ℕ
  pub config_file : Option Text
  pub key_storage : Option (Text → Text → Option Text)
  pub methods : List KeyMethod
  pub parse_rules : ParseRule
  pub ssh_agent_identity : Option SshAgentIdentity

module _ {ParseRule : Type 0} where
  -- `SshOpts::new`, from the rule `ParseRule::STRICT`.
  abbrev pub new : ParseRule → Text → SshOpts ParseRule
  new strict h = record {
    host = h;
    port = none;
    username = none;
    password = none;
    connection_timeout = none;
    config_file = none;
    key_storage = none;
    methods = [];
    parse_rules = strict;
    ssh_agent_identity = none;
  }

  abbrev pub with_port : SshOpts ParseRule → ℕ → SshOpts ParseRule
  with_port o p = record o { port = some p }

  abbrev pub with_username : SshOpts ParseRule → Text → SshOpts ParseRule
  with_username o u = record o { username = some u }

  abbrev pub with_password : SshOpts ParseRule → Text → SshOpts ParseRule
  with_password o p = record o { password = some p }

  abbrev pub with_connection_timeout : SshOpts ParseRule → ℕ → SshOpts ParseRule
  with_connection_timeout o t = record o { connection_timeout = some t }

  abbrev pub with_ssh_agent_identity :
      SshOpts ParseRule → Option SshAgentIdentity → SshOpts ParseRule
  with_ssh_agent_identity o i = record o { ssh_agent_identity = i }

  abbrev pub with_config_file : SshOpts ParseRule → Text → ParseRule → SshOpts ParseRule
  with_config_file o p rules = record o { config_file = some p; parse_rules = rules }

  abbrev pub with_key_storage : SshOpts ParseRule → (Text → Text → Option Text) → SshOpts ParseRule
  with_key_storage o storage = record o { key_storage = some storage }

  abbrev pub with_method : SshOpts ParseRule → KeyMethod → SshOpts ParseRule
  with_method o m = record o { methods = o.methods ++ m ∷ [] }
