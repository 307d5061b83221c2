-- ===== src/Tests/RouteRuns.antt =====
-- Runs of src/route.rs on a small host.
use soulvpn.Base.{
  ℕ, ◌≡◌, ◌<◌, refl, true, false, none, some, List, [], ◌∷◌, ok, codes, v4, SocketAddr, replicate,
  list_beq, lookup, contains_key,
}
use soulvpn.Config.Chars.{Text, read_digits}
use soulvpn.Config.{parse_addr}
use soulvpn.Route.Os.{Arg, word, name, scan_route, default_route}
use soulvpn.Route.Dns.{resolv, resolv_backup, resolv_body}
use soulvpn.Route.Dns
use soulvpn.Route.Dns.Laws.{restore-install}
use soulvpn.Route.KillSwitch.{KillSwitch, guard}
use soulvpn.Route.KillSwitch
use soulvpn.Route.KillSwitch.Rules.{Replies, rules_of}
use soulvpn.Route.KillSwitch.Laws.{install-Closed}
use soulvpn.Route.Nat.{ip_forward, NatGuard, masquerade}
use soulvpn.Route.Nat
use soulvpn.Route.Client.{ClientRouteOpts, install}
use soulvpn.Route.Client.Owned.{Ends, drop-Clean}
use soulvpn.Tests.Host.{Host, host, host_files, host_filter, host_routes, tidy_host}

abbrev pub start : Host
start = record {
  table = (word "192.168.1.0/24", word "dev" ∷ name (codes "eth0") ∷ []) ∷ [];
  filter = record { chain = some (replicate 2 (word "-j" ∷ word "ACCEPT" ∷ [])); jumps = 0 };
  nat = 0;
  files = (resolv, codes "nameserver 9.9.9.9") ∷ (ip_forward, codes "0") ∷ [];
  online = true;
}

abbrev pub tun : Text
tun = codes "soulvpn0"

abbrev pub server : ℕ
server = 3405803777

route_found : default_route host start ≡ ok (3232235777, codes "eth0")
unfolding default_route scan_route list_beq parse_addr read_digits
route_found = refl

abbrev taken : Host
unfolding Dns.install
taken = (Dns.install host (codes "1.1.1.1" ∷ []) start).0

restore-install_example :
    let w'' = (Dns.restore host (record { restored = false }) taken).1 in
    ((host.remove_file (host.write taken resolv (codes "nameserver 9.9.9.9")).0 resolv_backup).1
        ≡ true
      → host.read w'' resolv_backup ≡ none)
    × ((host.write taken resolv (codes "nameserver 9.9.9.9")).1 ≡ true
        → host.read w'' resolv ≡ some (codes "nameserver 9.9.9.9"))
unfolding Dns.install lookup contains_key
restore-install_example =
    restore-install host_files start (codes "1.1.1.1" ∷ []) (codes "nameserver 9.9.9.9")
      (codes "nameserver 9.9.9.9") taken (record { restored = false }) refl refl refl

abbrev locked : Host
unfolding KillSwitch.install
locked = (KillSwitch.install host server 51820 tun start).0

install-Closed_example :
    (replies : List (List Arg)) × Replies replies
    × (host_filter.chain locked ≡ some (rules_of server 51820 tun replies))
    × (0 < host_filter.jumps locked)
unfolding KillSwitch.install host_filter
install-Closed_example = install-Closed host_filter server 51820 tun start locked guard refl

abbrev routed : Host
unfolding Nat.setup
routed = (Nat.setup host (codes "10.66.66.0/24") start).0

abbrev nat_guard : NatGuard
nat_guard = record {
  tun_cidr = codes "10.66.66.0/24";
  egress = codes "eth0";
  prev_forward = some (codes "0");
  rule_added = true;
}

abbrev pub opts : ClientRouteOpts
opts = record {
  redirect_all = true;
  kill_switch = true;
  disable_ipv6 = true;
  dns = codes "1.1.1.1" ∷ [];
}

drop-Clean_example :
    let endpoint : SocketAddr = record { ip = v4 server; port = 51820 } in
    Ends tidy_host server
      (host_routes.routes start)
      endpoint
      true
      (false ∷ true ∷ [])
      (install host endpoint tun opts start)
unfolding lookup tidy_host host_routes host_filter
drop-Clean_example =
    drop-Clean tidy_host server (host_routes.routes start) 51820 tun opts true (false ∷ true ∷ [])
      start ((refl, refl, refl, λ s l h a. refl), refl)
