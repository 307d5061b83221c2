-- ===== src/Tests/SetupRuns.antt =====
-- Runs of the set-up of src/server.rs and src/client.rs, over the small host.
use soulvpn.Base.{
  ℕ, ◌≡◌, refl, true, false, some, List, [], ◌∷◌, Result, ok, bail, codes, lookup, insert, list_beq,
  replicate, v4, SocketAddr,
}
use soulvpn.Config.{
  parse_mode, parse_addr, parse_ipv4, parse_cidr, decode_key, load_key_material, server_private_key,
}
use soulvpn.Config.Toml.{ServerConfig, ClientConfig}
use soulvpn.Config.Chars.{read_digits, from_str_radix}
use soulvpn.Route.Os.Laws.{Fails}
use soulvpn.Route.Os.{default_egress_dev, default_route, scan_route}
use soulvpn.Route.Nat.{NatGuard, setup}
use soulvpn.Devices.{Devices, create}
use soulvpn.Config.Show.{digits, show_addr, show_cidr}
use soulvpn.TunDev.{ipv4_network, prefix_to_netmask}
use soulvpn.Client.{Attempt, no_answer, answered, attempts, handshake}
use soulvpn.Crypto.Handshake.{initiator_new, write_init}
use soulvpn.Client.Setup as ClientSetup
use soulvpn.Client.Setup.Laws.{Unmarked, run-Stops, run-Unmarked}
use soulvpn.Server.Settings.{Settings, settings, decode_peers}
use soulvpn.Server.Setup.{Up, guard_nat, set_up, tables_of}
use soulvpn.Server.Setup.Laws.{NatApart, Held, shut_down-set_up}
use soulvpn.Tests.Toy.{toy}
use soulvpn.Tests.Host.{Host, host, host_nat, host_routes, host_filter, tidy_host}
use soulvpn.Tests.RouteRuns.{start, server}
use soulvpn.Tests.ControlRuns.{now}
use soulvpn.Tests.ConfigRuns.{env, cfg, client_cfg}

-- Sockets and a device that change nothing of what the host shows.
abbrev devices : (ℕ → List ℕ → Attempt) → Devices host
devices net = record {
  bind = λ addr w. (w, ok tt);
  bind_any = λ w. (w, ok tt);
  connect = λ endpoint w. (w, ok tt);
  local_addr = λ w. ok (record { ip = v4 0; port = 40000 });
  create_as_async = λ c w. (w, ok (ok c.tun_name));
  attempts = λ w. (w, net);
}

abbrev nat_cfg : ServerConfig
nat_cfg = record cfg { nat = true }

nat_apart : NatApart (devices (λ k msg. no_answer)) host_nat
nat_apart = record {
  forward-bind = λ addr w. refl;
  forward-create = λ c w. refl;
  rules-bind = λ addr rule w. refl;
  rules-create = λ c rule w. refl;
}

abbrev server_settings : Settings
server_settings = record {
  private = 67 ∷ replicate 31 0;
  addr = 172114433;
  prefix = 24;
  control_mode = 384;
  peers = (65 ∷ replicate 31 0, 172114434) ∷ (66 ∷ replicate 31 0, 172114435) ∷ [];
}

read_settings : settings env nat_cfg ≡ ok server_settings
unfolding settings server_private_key load_key_material decode_key parse_cidr parse_addr read_digits
    parse_mode from_str_radix decode_peers parse_ipv4
read_settings = refl

abbrev raised : Host × Result (Up toy)
raised = set_up (devices (λ k msg. no_answer)) toy env nat_cfg now start

abbrev nat_guard : NatGuard
nat_guard = record {
  tun_cidr = codes "10.66.66.0/24";
  egress = codes "eth0";
  prev_forward = some (codes "0");
  rule_added = true;
}

abbrev up : Up toy
up = record {
  set = server_settings;
  tun_name = codes "soulvpn0";
  nat_guard = some nat_guard;
  tables =
      tables_of (devices (λ k msg. no_answer)) toy env nat_cfg now server_settings
        (codes "soulvpn0");
}

is_up : raised ≡ (raised.0, ok up)
unfolding set_up create guard_nat setup settings server_private_key load_key_material decode_key
    parse_cidr parse_addr read_digits from_str_radix parse_mode decode_peers parse_ipv4
    default_egress_dev default_route scan_route list_beq show_cidr lookup show_addr insert digits
    ipv4_network prefix_to_netmask
is_up = refl

shut_down-set_up_example :
    (guard : NatGuard) × Held
      (devices (λ k msg. no_answer))
      host_nat
      nat_apart
      nat_cfg
      start
      raised.0
      up
      guard
unfolding lookup
shut_down-set_up_example =
    shut_down-set_up (devices (λ k msg. no_answer)) host_nat nat_apart toy env nat_cfg now
      (codes "0") start raised.0 up refl is_up refl (λ v. refl)

-- A client whose server answers every message, or none.
abbrev there : SocketAddr
there = record { ip = v4 server; port = 51820 }

abbrev tunnel_cfg : ClientConfig
tunnel_cfg = record client_cfg {
  endpoint = there;
  private_key = some (67 ∷ []);
  server_public_key = some (68 ∷ []);
  address = codes "10.66.66.2/24";
  control_mode = codes "0600";
  kill_switch = true;
}

abbrev reply : ℕ → List ℕ → Attempt
reply k msg = answered (2 ∷ 7 ∷ 0 ∷ 0 ∷ 0 ∷ 7 ∷ [])

run-Unmarked_example :
    Unmarked tidy_host server
      (ClientSetup.run (devices reply) toy env tunnel_cfg (false ∷ true ∷ []) now now start).0
unfolding lookup tidy_host host_routes host_filter
run-Unmarked_example =
    run-Unmarked tidy_host server (devices reply) toy env tunnel_cfg (false ∷ true ∷ []) now now
      refl (record { bind = λ w. refl; connect = λ endpoint w. refl; attempts = λ w. refl })
      (λ c w. refl) start refl

no_session :
    (private server_public : List ℕ)
    → Fails (handshake toy private server_public (λ k msg. no_answer))
unfolding handshake attempts initiator_new write_init
no_session private server_public = (bail "handshake failed after 10 attempts", refl)

run-Stops_example :
    let r =
      ClientSetup.run
        (devices (λ k msg. no_answer))
        toy
        env
        tunnel_cfg
        (false ∷ true ∷ [])
        now
        now
        start in
    (r.0 ≡ start) × Fails r.1
run-Stops_example =
    run-Stops (devices (λ k msg. no_answer)) toy env tunnel_cfg (λ w. w) (false ∷ true ∷ []) now now
      (record { bind = λ w. refl; connect = λ endpoint w. refl; attempts = λ w. refl })
      (λ set w. no_session set.private set.server_pub) start
