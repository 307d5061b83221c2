-- ===== src/Tests/ConfigRuns.antt =====
-- Concrete runs of the validation of configurations, src/config.rs.
use soulvpn.Base.{
  lookup, bytes_eq, err, bail, codes, ℕ, ◌-◌, ◌≡◌, refl, true, false, none, some, List, [], ◌∷◌,
  ◌++◌, length, replicate, ok, v4, SocketAddr, list_beq,
}
use soulvpn.Config.Chars.{read_digits, from_str_radix}
use soulvpn.Config.{
  Env, parse_mode, parse_addr, parse_ipv4, parse_cidr, network_addr, ip_in_network, decode_key,
  load_key_material, check_peers, check_server, server_load,
}
use soulvpn.Config.Toml.{ServerToml, filled_server, ServerConfig, ClientConfig}
use soulvpn.Config.Laws.{Entry, Decoded, IsValid, server_load-IsValid}
use soulvpn.Stats.{RuntimeStats, new, server}
use soulvpn.Server.Run.{start}
use soulvpn.Server.State.{PeerMeta}
use soulvpn.Server.Run.Peers.{Listed, Tabled}
use soulvpn.Server.Settings.{Settings, settings}
use soulvpn.Server.Settings.Laws.{settings-server_load}
use soulvpn.Config.{server_private_key}
use soulvpn.Config.Laws.{AllNew}
use soulvpn.Tests.Toy.{toy}

abbrev addr : SocketAddr
addr = record { ip = v4 0; port = 51820 }

-- Two peers, 10.66.66.2 and 10.66.66.3, in 10.66.66.1/24, with the mode 0600.
abbrev pub cfg : ServerConfig
cfg = record {
  listen = addr;
  private_key = some (67 ∷ []);
  private_key_file = none;
  address = 49 ∷ 48 ∷ 46 ∷ 54 ∷ 54 ∷ 46 ∷ 54 ∷ 54 ∷ 46 ∷ 49 ∷ 47 ∷ 50 ∷ 52 ∷ [];
  mtu = 1400;
  nat = false;
  handshake_rate_limit = 10;
  handshake_rate_window_secs = 10;
  session_idle_secs = 180;
  control_mode = 48 ∷ 54 ∷ 48 ∷ 48 ∷ [];
  peers =
      record {
        public_key = 65 ∷ [];
        allowed_ip = 49 ∷ 48 ∷ 46 ∷ 54 ∷ 54 ∷ 46 ∷ 54 ∷ 54 ∷ 46 ∷ 50 ∷ [];
      }
      ∷ record {
        public_key = 66 ∷ [];
        allowed_ip = 49 ∷ 48 ∷ 46 ∷ 54 ∷ 54 ∷ 46 ∷ 54 ∷ 54 ∷ 46 ∷ 51 ∷ [];
      }
      ∷ [];
}

abbrev pub written : ServerToml
written = record {
  listen = cfg.listen;
  private_key = cfg.private_key;
  private_key_file = cfg.private_key_file;
  address = cfg.address;
  mtu = none;
  nat = none;
  handshake_rate_limit = none;
  handshake_rate_window_secs = none;
  session_idle_secs = none;
  control_mode = none;
  peers = cfg.peers;
}

abbrev pub client_cfg : ClientConfig
client_cfg = record {
  endpoint = addr;
  private_key = none;
  private_key_file = none;
  server_public_key = none;
  server_public_key_file = none;
  address = [];
  mtu = 1400;
  redirect_all = true;
  kill_switch = false;
  disable_ipv6 = true;
  dns = [];
  keepalive_secs = 25;
  rekey_secs = 120;
  reconnect_timeout_secs = 45;
  control_mode = [];
}

-- A key's text is taken for its first byte.
abbrev pub env : Env
env = record {
  read_to_string = λ path. ok [];
  mode_of = λ path. ok 384;
  base64 = λ s. ok (s ++ replicate (32 - length s) 0);
  server_toml = λ text. ok written;
  client_toml = λ text. err (bail "unused");
}

loaded : server_load env [] ≡ ok cfg
unfolding server_load filled_server check_server parse_mode parse_addr parse_ipv4 parse_cidr
    network_addr ip_in_network decode_key load_key_material check_peers read_digits from_str_radix
    list_beq
loaded = refl

server_load-IsValid_example :
    (server_ip : ℕ) × (prefix : ℕ) × (entries : List Entry) × IsValid env cfg server_ip prefix
      entries
server_load-IsValid_example = server_load-IsValid env [] cfg loaded

abbrev stats : RuntimeStats
unfolding new
stats =
    new server addr (codes "10.66.66.1/24") (codes "soulvpn0") (record { instant = 0; wall_ms = 0 })

settings-server_load_example :
    (set : Settings) × (settings env cfg ≡ ok set)
    × (server_private_key env cfg ≡ ok set.private)
    × (parse_cidr cfg.address ≡ ok (set.addr, set.prefix))
    × Decoded env cfg.peers set.peers
    × AllNew set.addr (network_addr set.addr set.prefix) set.prefix [] [] set.peers
    × Tabled (start {n = toy} set.peers 10 10 stats).state.peers set.peers
    × ((key : List ℕ) (peer : PeerMeta)
        → lookup key (start {n = toy} set.peers 10 10 stats).state.peers ≡ some peer
        → Listed key peer.tunnel_ip set.peers)
settings-server_load_example = settings-server_load toy env [] cfg stats loaded
