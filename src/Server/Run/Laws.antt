-- ===== src/Server/Run/Laws.antt =====
-- What holds at every moment of a run of the server.
use soulvpn.Base.{ℕ, ◌≡◌, some, nat_eq, Bool, List, lookup, bytes_eq, SocketAddr}
use soulvpn.Crypto.Noise.{Noise}
use soulvpn.Stats.{Clock, RuntimeStats, set_enabled}
use soulvpn.Server.State.{LiveSession, Server}
use soulvpn.Server.Run.Sessions.{KeepsRemote, IsOfPeer}
use soulvpn.Server.Run.Identity.{Reachable-AllOfPeers, start-AllOfPeers}
use soulvpn.Server.Invariant.{IsWellFormed}
use soulvpn.Server.Downlink.{on_udp}
use soulvpn.Server.Downlink.Laws.{on_udp-IsWellFormed, on_udp-IsAuthorized, IsAuthorized, Writes}
use soulvpn.Server.Uplink.{on_tun}
use soulvpn.Server.Uplink.Laws.{on_tun-IsWellFormed, on_tun-IsRouted, IsRouted, Sends}
use soulvpn.Server.Reaper.Laws.{reap-IsWellFormed}
use soulvpn.Server.Run.{start, Step, Reachable, downlink, uplink, tick, control, started, then_step}

pub start-IsWellFormed :
    {n : Noise} (cfg_peers : List (List ℕ × ℕ)) (limit window : ℕ) (stats : RuntimeStats)
    → IsWellFormed (start {n = n} cfg_peers limit window stats).state
unfolding start lookup
start-IsWellFormed cfg_peers limit window stats = record {
  distinct_index = tt;
  distinct_ip = tt;
  ip_to_index = λ ip j h. cc;
  index_to_ip = λ j live h. cc;
  configured = λ j live h. cc;
}

Step-IsWellFormed :
    {n : Noise} {private : List ℕ} {idle_secs : ℕ} {sv sv' : Server n}
    → Step private idle_secs sv sv'
    → IsWellFormed sv.state
    → IsWellFormed sv'.state
unfolding set_enabled
Step-IsWellFormed {private = private} (downlink sv buf src now draws written) inv =
    on_udp-IsWellFormed private sv buf src now draws written inv
Step-IsWellFormed (uplink sv plain now sent) inv = on_tun-IsWellFormed sv plain now sent inv
Step-IsWellFormed {idle_secs = idle_secs} (tick sv now) inv = reap-IsWellFormed idle_secs now sv inv
Step-IsWellFormed (control sv on now) inv = inv

Reachable-IsWellFormed :
    {n : Noise} {private : List ℕ} {idle_secs : ℕ} {first sv : Server n}
    → Reachable private idle_secs first sv
    → IsWellFormed first.state
    → IsWellFormed sv.state
Reachable-IsWellFormed started inv = inv
Reachable-IsWellFormed (then_step before step) inv =
    Step-IsWellFormed step (Reachable-IsWellFormed before inv)

-- At every moment of a run, from the empty tables and over rounds of the tasks in any order, the two
-- tables are inverse to one another, each session is filed under its own index, and it is one of a peer of
-- the configuration: Noise has authenticated the key, and the tunnel address is the one that stands with
-- this key in the configuration. So a datagram makes the server write to the TUN device only what such a
-- session has authenticated and has its address as the source, and a packet from the TUN device is sent
-- only to the session that owns its destination.
pub Reachable-safe :
    {n : Noise} (private : List ℕ) (idle_secs : ℕ) (cfg_peers : List (List ℕ × ℕ))
    (limit window : ℕ) (stats : RuntimeStats) (sv : Server n)
    → KeepsRemote n
    → Reachable private idle_secs (start cfg_peers limit window stats) sv
    → IsWellFormed sv.state
      × ((index : ℕ) (live : LiveSession n)
          → lookup index sv.state.by_index ≡ some live
          → IsOfPeer cfg_peers live)
      × ((buf : List ℕ) (src : SocketAddr) (now : Clock) (draws : List ℕ) (written : Bool)
          → Writes (IsAuthorized sv buf) (on_udp private sv buf src now draws written).outputs)
      × ((plain : List ℕ) (now : Clock) (sent : Bool)
          → Sends (IsRouted sv plain) (on_tun sv plain now sent).outputs)
Reachable-safe private idle_secs cfg_peers limit window stats sv keeps r =
    let inv = Reachable-IsWellFormed r (start-IsWellFormed cfg_peers limit window stats) in
    (
      inv,
      (Reachable-AllOfPeers keeps r (start-AllOfPeers cfg_peers limit window stats)).of_peer,
      λ buf src now draws written. on_udp-IsAuthorized private sv buf src now draws written,
      λ plain now sent. on_tun-IsRouted sv plain now sent inv,
    )
