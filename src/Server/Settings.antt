-- ===== src/Server/Settings.antt =====
-- What src/server.rs, `run` (lines 96-107), reads of its configuration.
pub mod Laws
use soulvpn.Base.{ℕ, List, [], ◌∷◌, Result, ok, ◌>>=◌}
use soulvpn.Config.{Env, decode_key, parse_ipv4, parse_cidr, parse_mode, server_private_key}
use soulvpn.Config.Toml.{PeerConfig, ServerConfig}

-- The loop over the peers: the key and the address of each.
unfoldable pub decode_peers : Env → List PeerConfig → Result (List (List ℕ × ℕ))
decode_peers env [] = ok []
decode_peers env (p ∷ ps) = do
  pk ← decode_key env p.public_key
  tip ← parse_ipv4 p.allowed_ip
  rest ← decode_peers env ps
  ok ((pk, tip) ∷ rest)

-- What `run` reads of its configuration.
pub record Settings : Type 0 where
  pub private : List ℕ
  pub addr : ℕ
  pub prefix : ℕ
  pub control_mode : ℕ
  pub peers : List (List ℕ × ℕ)

unfoldable pub settings : Env → ServerConfig → Result Settings
settings env cfg = do
  private ← server_private_key env cfg
  net ← parse_cidr cfg.address
  control_mode ← parse_mode cfg.control_mode
  peers ← decode_peers env cfg.peers
  ok (record {
    private = private;
    addr = net.0;
    prefix = net.1;
    control_mode = control_mode;
    peers = peers;
  })
