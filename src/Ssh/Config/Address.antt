-- ===== src/Ssh/Config/Address.antt =====
-- src/ssh/config.rs, `resolve_address`: the address, and its parts.
use remotefs_rs_ssh.Prelude.{
  ℕ, ◌+◌, ◌-◌, ◌<◌, ◌^◌, ◌≡◌, ◌≢◌, some, ◌++◌, All, All-map, append_assoc, arith, unwrap_or,
}
use remotefs_rs_ssh.Text.{Text, codes, byte_len, rfind, slice_from, slice_to}
use remotefs_rs_ssh.Text.Slice.{rfind_last, slice_from-append, slice_to-append, byte_len-append}
use remotefs_rs_ssh.Text.Number.{decimal, parse_uint}
use remotefs_rs_ssh.Text.Number.RoundTrip.{IsDigit, decimal-digits, parse_uint-decimal}
use remotefs_rs_ssh.Host.{HostParams}
use remotefs_rs_ssh.Ssh.Opts.{SshOpts}
use remotefs_rs_ssh.Ssh.Config.{from_params, resolve_address, resolve_host, resolve_port}

-- The parts of an address at its last colon, as the resolution of socket addresses takes them.
pub record Parts (address : Text) (host : Text) (port : ℕ) : Type 0 where
  pub colon : ℕ
  pub port_text : Text
  pub found : rfind b':' address ≡ some colon
  pub host_part : slice_to colon address ≡ some host
  pub port_part : slice_from (colon + 1) address ≡ some port_text
  pub port_value : parse_uint (2 ^ 16 - 1) port_text ≡ some port

no_colon : (n : ℕ) → All (λ d. d ≢ b':') (decimal n)
no_colon n = All-map IsDigit (λ d. d ≢ b':') (λ d h. omega arith) (decimal n) (decimal-digits n)

byte_len-colon : (h : Text) → byte_len (h ++ codes ":") ≡ byte_len h + 1
unfolding byte_len
byte_len-colon h = byte_len-append h (codes ":")

Parts-address : (h : Text) (p : ℕ) → p < 2 ^ 16 → Parts (h ++ (codes ":" ++ decimal p)) h p
Parts-address h p fits = record {
  colon = byte_len h;
  port_text = decimal p;
  found = rfind_last b':' h (decimal p) (no_colon p);
  host_part = slice_to-append h (codes ":" ++ decimal p);
  port_part =
      rw (← byte_len-colon h)
        (simp append_assoc at (slice_from-append (h ++ codes ":") (decimal p)));
  port_value = parse_uint-decimal (2 ^ 16 - 1) p (omega arith);
}

port-resolved :
    {ParseRule : Type 0} (params : HostParams) (opts : SshOpts ParseRule)
    → resolve_port params opts ≡ unwrap_or opts.port (unwrap_or params.port 22)
unfolding resolve_port
port-resolved params opts = ground arith

-- Where the port fits in 16 bits, the address of a configuration is taken apart at its last colon
-- into the resolved host, whatever its text, and the port: that of the options, else that of the
-- parameters, else 22.
pub from_params-Parts :
    {ParseRule : Type 0} (params : HostParams) (opts : SshOpts ParseRule)
    → unwrap_or opts.port (unwrap_or params.port 22) < 2 ^ 16
    → Parts
        (from_params params opts).address
        (from_params params opts).resolved_host
        (unwrap_or opts.port (unwrap_or params.port 22))
unfolding from_params resolve_address
from_params-Parts params opts fits =
    rw (port-resolved params opts) (
      Parts-address (resolve_host params opts) (unwrap_or opts.port (unwrap_or params.port 22))
        fits)
