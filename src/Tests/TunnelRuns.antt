-- ===== src/Tests/TunnelRuns.antt =====
-- A client and a session of the server that belong together.
use soulvpn.Base.{
  ℕ, ◌≡◌, refl, true, false, none, err, bail, some, List, [], ◌∷◌, lookup, insert, remove, list_beq,
  nat_eq, codes, arith,
}
use soulvpn.Packet.{is_ipv4, ipv4_dst}
use soulvpn.Crypto.Replay.{default}
use soulvpn.Crypto.Replay.Refines.{default-Refines, is_fresh}
use soulvpn.Crypto.Session.{Session}
use soulvpn.Stats.{RuntimeStats, new, client}
use soulvpn.Client as Peer
use soulvpn.Client.{Client, Intervals, needs, upkeep, send}
use soulvpn.Server.Downlink as Down
use soulvpn.Server.Downlink.{send_to}
use soulvpn.Server.Uplink as Up
use soulvpn.Tunnel.{Reaches, Connected, carries}
use soulvpn.Stats.{Clock}
use soulvpn.Server.State.{LiveSession}
use soulvpn.Server.Invariant.{IsWellFormed}
use soulvpn.Server.Handshake.{enter}
use soulvpn.Server.Handshake.Tables.{enter-IsWellFormed}
use soulvpn.Server.Run.{start, peer_table}
use soulvpn.Server.Reaper.{reap}
use soulvpn.Tunnel.Alive.{Refreshed, upkeep-survives}
use soulvpn.Tests.Toy.{toy, toy_laws}
use soulvpn.Tests.ServerRuns.{
  src, now, peer_ip, first_inv, inner, live, busy, known, from_peer, enabled,
}

abbrev client_stats : RuntimeStats
unfolding new
client_stats = new client src (codes "10.8.0.2/24") (codes "soulvpn") now

abbrev session : Session toy
session = record {
  index = 7;
  transport = record { sending = 0; receiving = 0; remote = none };
  send_nonce = 0;
  replay = default;
}

abbrev peer : Client toy
peer = record {
  slot = record { session = session; established = 0; last_rx = 0; last_tx = 0 };
  stats = client_stats;
}

fresh : is_fresh [] 0 ≡ true
unfolding is_fresh
fresh = refl

client_on : client_stats.enabled ≡ true
unfolding client_stats
client_on = refl

routed : lookup live.tunnel_ip busy.state.by_ip ≡ some 7
unfolding lookup
routed = refl

to_peer : ipv4_dst inner ≡ some live.tunnel_ip
unfolding ipv4_dst is_ipv4
to_peer = refl

forth : Reaches toy_laws session live.session
forth = record {
  seen = [];
  sender = refl;
  numbers = omega arith;
  receiver = record { index_lt = omega arith; window = default-Refines };
  fresh = fresh;
}

back : Reaches toy_laws live.session session
back = record {
  seen = [];
  sender = refl;
  numbers = omega arith;
  receiver = record { index_lt = omega arith; window = default-Refines };
  fresh = fresh;
}

pair : Connected toy_laws peer busy live
pair = record {
  known = known;
  routed = routed;
  same = refl;
  no_init = λ e. omega arith;
  client_on = client_on;
  server_on = enabled;
  forth = forth;
  back = back;
}

carries_example :
    ((wire : List ℕ) × ((Peer.on_tun peer inner now true).outputs ≡ send wire ∷ [])
      × ((Down.on_udp [] busy wire src now [] true).outputs ≡ Down.write_tun inner ∷ []))
    × ((wire : List ℕ) × ((Up.on_tun busy inner now true).outputs ≡ send_to wire src ∷ [])
        × ((Peer.on_udp peer wire now true).outputs ≡ Peer.write_tun inner ∷ []))
carries_example =
    carries toy_laws [] peer busy live inner inner src now now [] true true pair (omega arith)
      (omega arith) from_peer to_peer

abbrev intervals : Intervals
intervals = record { keepalive_secs = 25; rekey_secs = 120; reconnect_timeout_secs = 45 }

abbrev silent : Clock
silent = record { instant = 30000000000; wall_ms = 1700000025000 }

due :
    ((needs intervals peer.slot silent.instant).need_rekey ≡ false)
    × ((needs intervals peer.slot silent.instant).need_reconnect ≡ false)
    × ((needs intervals peer.slot silent.instant).need_keepalive ≡ true)
unfolding needs
due = (refl, refl, refl)

busy_inv : IsWellFormed busy.state
unfolding enter insert remove start peer_table lookup list_beq
busy_inv =
    enter-IsWellFormed first_inv 7 live refl refl refl
      (9 ∷ [], record { tunnel_ip = peer_ip }, refl, refl)

-- Ninety seconds after the keepalive.
upkeep-survives_example :
    (wire : List ℕ) × ((upkeep intervals peer silent silent (err (bail "unused"))).outputs
      ≡ send wire ∷ [])
    × ((live' : LiveSession toy) × (lookup 7
            (reap 120 120000000000
              (Down.on_udp [] busy wire src silent [] true).server).state.by_index
          ≡ some live')
        × Refreshed live src silent live')
upkeep-survives_example =
    upkeep-survives toy_laws [] intervals peer busy live (err (bail "unused")) src silent silent
      silent [] true 120 120000000000 pair busy_inv due.0 due.1 due.2 (omega arith)
