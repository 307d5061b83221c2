-- ===== src/Config/Defaults.antt =====
-- A configuration of src/config.rs that leaves out the keys with defaults.
use soulvpn.Base.{◌≡◌, refl, none, [], length, ◌==◌, ok, ◌>>=◌, ◌>>◌, bail_if}
use soulvpn.Config.Chars.{from_str_radix, read_digits}
use soulvpn.Config.Toml.{ServerToml, ClientToml, filled_server, filled_client, default_control_mode}
use soulvpn.Config.{
  Env, parse_mode, parse_cidr, network_addr, load_key_material, check_peers, check_server,
  check_client,
}

parse_mode-default_control_mode : parse_mode default_control_mode ≡ ok 384
unfolding parse_mode from_str_radix read_digits
parse_mode-default_control_mode = refl

module _ (env : Env) where
  -- A file of the server without an MTU and a control mode is checked for its peers, its address and its
  -- key only.
  pub check_server-filled_server :
      (written : ServerToml)
      → written.mtu ≡ none
      → written.control_mode ≡ none
      → check_server env (filled_server written) ≡ (do
        bail_if (length written.peers == 0) "server config must list at least one peer"
        net ← parse_cidr written.address
        check_peers env net.0 (network_addr net.0 net.1) net.1 [] [] written.peers
        _ ← load_key_material env written.private_key written.private_key_file
        ok (filled_server written))
  unfolding check_server filled_server
  check_server-filled_server written mtu mode = rw (mtu, mode, parse_mode-default_control_mode) refl

  -- A file of the client without an MTU, a control mode and servers of names is checked for its two keys
  -- only.
  pub check_client-filled_client :
      (written : ClientToml)
      → written.mtu ≡ none
      → written.control_mode ≡ none
      → written.dns ≡ none
      → check_client env (filled_client written) ≡ (do
        _ ← load_key_material env written.private_key written.private_key_file
        _ ← load_key_material env written.server_public_key written.server_public_key_file
        ok (filled_client written))
  unfolding check_client filled_client
  check_client-filled_client written mtu mode dns =
      rw (mtu, mode, dns, parse_mode-default_control_mode) refl
