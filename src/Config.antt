-- ===== src/Config.antt =====
-- src/config.rs: the configurations and their validation. Paths and texts are lists of characters. The
-- file system and the crates `toml` and `base64` are the parameter `Env`.
pub mod Chars
pub mod Toml
pub mod Network
pub mod Laws
pub mod Defaults
pub mod KeyFiles
pub mod Show
pub mod Bounds
use soulvpn.Base.{
  ℕ, ◌-◌, ◌*◌, ◌%◌, ◌^◌, Bool, true, false, not, ◌||◌, Option, none, some, List, [], ◌∷◌, map,
  length, anyb, ltb, leb, ◌==◌, list_beq, if◌then◌else◌, bit_and, Result, ok, err, bail, ◌>>=◌,
  ◌>>◌, bail_if, with_context, or_context, SocketAddr,
}
use soulvpn.Packet.{ipv4_new}
use soulvpn.Config.Toml.{
  PeerConfig, ServerConfig, ClientConfig, ServerToml, ClientToml, filled_server, filled_client,
}
use soulvpn.Config.Chars.{
  Text, trim, trim_octal, split_once, first_part, split, first_line, is_digit, read_digits,
  from_str_radix,
}

-- Reading a file and its permission bits, decoding base64, and reading the keys of a configuration from
-- TOML.
pub record Env : Type 0 where
  pub read_to_string : Text → Result Text
  pub mode_of : Text → Result ℕ
  pub base64 : Text → Result (List ℕ)
  pub server_toml : Text → Result ServerToml
  pub client_toml : Text → Result ClientToml

-- `"…".parse::<u8>()` and `u32::from_str_radix(…, 8)`.
abbrev pub parse_u8 : Text → Option ℕ
parse_u8 = from_str_radix 10 (2 ^ 8)

unfoldable pub parse_mode : Text → Result ℕ
parse_mode s = or_context "invalid mode" (from_str_radix 8 (2 ^ 32) (trim_octal (trim s)))

-- One part of an IPv4 address: at most three digits, with no leading zero.
abbrev pub octet : Text → Option ℕ
octet [] = none
octet (c ∷ []) = read_digits 10 256 0 (c ∷ [])
octet (c ∷ d ∷ cs) =
    if c == 48 || ltb 1 (length cs) then none else read_digits 10 256 0 (c ∷ d ∷ cs)

abbrev pub four : List (Option ℕ) → Option ℕ
four (some a ∷ some b ∷ some c ∷ some d ∷ []) = some (ipv4_new a b c d)
four parts = none

-- `"…".parse::<Ipv4Addr>()`
unfoldable pub parse_addr : Text → Option ℕ
parse_addr s = four (map octet (split 46 s))

unfoldable pub parse_ipv4 : Text → Result ℕ
parse_ipv4 s = or_context "parse IPv4" (parse_addr (first_part 47 s))

unfoldable pub parse_cidr : Text → Result (ℕ × ℕ)
parse_cidr s = do
  parts ← or_context "address must be CIDR, e.g. 10.66.66.1/24" (split_once 47 s)
  ip ← or_context "parse IPv4 address" (parse_addr parts.0)
  prefix ← or_context "parse prefix length" (parse_u8 parts.1)
  bail_if (ltb 32 prefix) "prefix length must be <= 32"
  ok (ip, prefix)

-- `u32::MAX << (32 - prefix)`
abbrev pub mask : ℕ → ℕ
mask prefix = (2 ^ 32 - 1) * 2 ^ (32 - prefix) % 2 ^ 32

unfoldable pub network_addr : ℕ → ℕ → ℕ
network_addr ip prefix = if prefix == 0 then 0 else bit_and ip (mask prefix)

unfoldable pub ip_in_network : ℕ → ℕ → ℕ → Bool
ip_in_network ip network prefix =
    if prefix == 0 then true else bit_and ip (mask prefix) == bit_and network (mask prefix)

-- `unwrap_or("")`
abbrev pub or_empty : Option Text → Text
or_empty none = []
or_empty (some line) = line

module _ (env : Env) where
  unfoldable pub decode_key : Text → Result (List ℕ)
  decode_key s = do
    bytes ← with_context "base64-decode key" (env.base64 (trim s))
    bail_if (not (length bytes == 32)) "key must be 32 bytes"
    ok bytes

  -- A mode with a permission for the group or others is refused.
  unfoldable pub check_key_file_permissions : Text → Result (Unit {0})
  check_key_file_permissions path = do
    mode ← with_context "stat key file" (env.mode_of path)
    bail_if (not (bit_and (bit_and mode 511) 63 == 0)) "refuse to load (want 0600 or tighter)"

  abbrev pub key_of_file : Text → Result (List ℕ)
  key_of_file path = do
    check_key_file_permissions path
    text ← with_context "read key file" (env.read_to_string path)
    decode_key (trim (or_empty (first_line text)))

  unfoldable pub load_key_material : Option Text → Option Text → Result (List ℕ)
  load_key_material (some s) none = decode_key s
  load_key_material none (some path) = key_of_file path
  load_key_material (some s) (some path) = do
    from_file ← key_of_file path
    from_inline ← decode_key s
    bail_if (not (list_beq from_file from_inline)) "private_key and private_key_file disagree"
    ok from_file
  load_key_material none none =
      err (bail "set private_key or private_key_file (or server_public_key[_file])")

  -- `load_private_key` of both configurations, and `load_server_public_key`.
  unfoldable pub server_private_key : ServerConfig → Result (List ℕ)
  server_private_key cfg = load_key_material cfg.private_key cfg.private_key_file

  unfoldable pub client_private_key : ClientConfig → Result (List ℕ)
  client_private_key cfg = load_key_material cfg.private_key cfg.private_key_file

  unfoldable pub load_server_public_key : ClientConfig → Result (List ℕ)
  load_server_public_key cfg = load_key_material cfg.server_public_key cfg.server_public_key_file

  -- The loop over the peers, with the addresses and keys seen so far.
  unfoldable pub check_peers :
      ℕ → ℕ → ℕ → List ℕ → List (List ℕ) → List PeerConfig → Result (Unit {0})
  check_peers server_ip network prefix seen_ips seen_keys [] = ok tt
  check_peers server_ip network prefix seen_ips seen_keys (p ∷ ps) = do
    tip ← parse_ipv4 p.allowed_ip
    pk ← decode_key p.public_key
    bail_if (anyb (λ ip. ip == tip) seen_ips) "duplicate peer allowed_ip"
    bail_if (anyb (λ key. list_beq key pk) seen_keys) "duplicate peer public_key"
    bail_if (not (ip_in_network tip network prefix))
        "peer allowed_ip is outside server tunnel network"
    bail_if (tip == server_ip) "peer allowed_ip must not equal the server address"
    bail_if (tip == network) "peer allowed_ip must not be the network address"
    check_peers server_ip network prefix (tip ∷ seen_ips) (pk ∷ seen_keys) ps

  -- The checks of `ServerConfig::load` on a configuration that was read.
  unfoldable pub check_server : ServerConfig → Result ServerConfig
  check_server cfg = do
    bail_if (length cfg.peers == 0) "server config must list at least one peer"
    _ ← with_context "control_mode" (parse_mode cfg.control_mode)
    bail_if (ltb cfg.mtu 576 || ltb 9000 cfg.mtu) "mtu must be between 576 and 9000"
    net ← parse_cidr cfg.address
    check_peers net.0 (network_addr net.0 net.1) net.1 [] [] cfg.peers
    _ ← load_key_material cfg.private_key cfg.private_key_file
    ok cfg

  unfoldable pub server_load : Text → Result ServerConfig
  server_load path = do
    text ← with_context "read server config" (env.read_to_string path)
    written ← with_context "parse server config" (env.server_toml text)
    check_server (filled_server written)

  abbrev pub check_dns : List Text → Result (Unit {0})
  check_dns [] = ok tt
  check_dns (d ∷ ds) = do
    _ ← or_context "dns entry must be IPv4 address" (parse_addr d)
    check_dns ds

  unfoldable pub check_client : ClientConfig → Result ClientConfig
  check_client cfg = do
    _ ← with_context "control_mode" (parse_mode cfg.control_mode)
    bail_if (ltb cfg.mtu 576 || ltb 9000 cfg.mtu) "mtu must be between 576 and 9000"
    _ ← load_key_material cfg.private_key cfg.private_key_file
    _ ← load_key_material cfg.server_public_key cfg.server_public_key_file
    check_dns cfg.dns
    ok cfg

  unfoldable pub client_load : Text → Result ClientConfig
  client_load path = do
    text ← with_context "read client config" (env.read_to_string path)
    written ← with_context "parse client config" (env.client_toml text)
    check_client (filled_client written)
