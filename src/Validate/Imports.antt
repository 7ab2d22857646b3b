-- ===== src/Validate/Imports.antt =====
-- What validation uses of the packages that the program imports: `netip`, `net`, `regexp`, `shlex`
-- and the parser of image references. `none` and `false` are an error.
use knl.Common.{String, Bool, true, false, if◌then◌else◌, ltb, Option, none, some}
use Prim.Native.String.{len}

pub record Parsers : Type 1 where
  pub Addr : Type 0
  pub Prefix : Type 0
  pub parse_addr : String → Option Addr
  pub is4 : Addr → Bool
  pub is_multicast : Addr → Bool
  pub parse_prefix : String → Option Prefix
  pub is_valid_prefix : Prefix → Bool
  pub prefix_addr : Prefix → Addr
  pub parse_mac : String → Bool
  pub parse_ip : String → Bool
  pub split_host_port : String → Option (String × String)
  -- `regexp.MustCompile(pattern).MatchString(s)`, the pattern first
  pub match_string : String → String → Bool
  pub parse_reference : String → Bool
  pub split_shell : String → Bool

abbrev pub fqdn_regex : String
fqdn_regex =
    "^(([a-zA-Z0-9]|[a-zA-Z0-9][a-zA-Z0-9\\-]*[a-zA-Z0-9])\\.)*([A-Za-z0-9]|[A-Za-z0-9][A-Za-z0-9\\-]*[A-Za-z0-9])$"

module _ (P : Parsers) where
  -- `IsValidFQDN`
  unfoldable pub is_valid_fqdn : String → Bool
  is_valid_fqdn s = if ltb 253 (len s) then false else P.match_string fqdn_regex s

  -- `IsIPOrFQDN`
  unfoldable pub is_ip_or_fqdn : String → Bool
  unfolding is_valid_fqdn
  is_ip_or_fqdn host = if P.parse_ip host then true else is_valid_fqdn host

  -- `IsHostPort`
  unfoldable pub is_host_port : String → Bool
  unfolding is_ip_or_fqdn
  is_host_port inputs = elim (P.split_host_port inputs) [
    | none ↦ false
    | some (host, port) ↦ is_ip_or_fqdn host
  ]
