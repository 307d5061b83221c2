-- ===== src/Tests/ServerRuns.antt =====
-- Concrete runs of the server, src/server.rs.
use soulvpn.Base.{
  contains_key, err, bail, codes, ℕ, ◌≡◌, refl, Bool, true, none, some, List, [], ◌∷◌, ◌++◌, length,
  max, lookup, kept, nat_eq, list_beq, insert, v4, SocketAddr, ok, arith, to_le_bytes,
  from_le_bytes, replicate,
}
use soulvpn.Packet.{ipv4_new, is_ipv4, ipv4_src}
use soulvpn.Crypto.Replay.{default, check_and_update, test_bit, set_bit}
use soulvpn.Crypto.Session.{remote_static, from_transport, Session, header, encrypt, decrypt}
use soulvpn.Crypto.Session.Laws.{Flight, packet_of}
use soulvpn.Stats.{Clock, RuntimeStats, new, record_rx, record_handshake_fail, server, from_secs}
use soulvpn.Server.RateLimit.{rate_new, allow}
use soulvpn.Crypto.Handshake.{responder_new, responder_finish}
use soulvpn.Server.RateLimit.Refines
use soulvpn.Server.RateLimit.Refines.{Event, attempt, sweep, rate_new-spec_run}
use soulvpn.Server.State.{alloc_index, LiveSession, Server, peer_snapshots}
use soulvpn.Server.Invariant.{IsWellFormed}
use soulvpn.Server.Handshake.{handle_handshake}
use soulvpn.Server.Handshake.Cases.{After, admitted}
use soulvpn.Server.Handshake.Laws.{IsEstablished, handle_handshake-IsEstablished}
use soulvpn.Server.Downlink.{quiet, with_stats, on_udp, on_data, policy, answered}
use soulvpn.Server.Downlink.Laws.{
  Writes, IsAuthorized, IsTraced, on_udp-IsWellFormed, on_udp-IsAuthorized, on_udp-refused,
  on_data-peer_addr,
}
use soulvpn.Server.Downlink.Delivery.{encrypt-misrouted}
use soulvpn.Server.Uplink.{on_tun}
use soulvpn.Server.Uplink.Laws.{Sends, IsRouted, on_tun-IsRouted}
use soulvpn.Server.Reaper.{reap}
use soulvpn.Server.Reaper.Laws.{reap-survives, survives}
use soulvpn.Server.Run.{peer_table, start, Reachable, downlink, tick, started, then_step}
use soulvpn.Server.Run.Sessions.{IsOfPeer, KeepsRemote}
use soulvpn.Server.Run.Laws.{start-IsWellFormed, Reachable-safe}
use soulvpn.Tests.Toy.{Toy, toy, read_body}

abbrev pub src : SocketAddr
src = record { ip = v4 3405803777; port = 40000 }

abbrev pub now : Clock
now = record { instant = 5000000000; wall_ms = 1700000000000 }

abbrev pub stats : RuntimeStats
unfolding new
stats = new server src (codes "10.8.0.1/24") (codes "soulvpn0") now

abbrev pub peer_ip : ℕ
peer_ip = ipv4_new 10 8 0 2

abbrev pub first : Server toy
first = start ((9 ∷ [], peer_ip) ∷ []) 10 60 stats

pub first_inv : IsWellFormed first.state
first_inv = start-IsWellFormed ((9 ∷ [], peer_ip) ∷ []) 10 60 stats

-- A handshake message of the configured peer.
abbrev init : List ℕ
init = 1 ∷ 9 ∷ []

abbrev second : Server toy
second = (on_udp [] first init src now (7 ∷ []) true).server

second_inv : IsWellFormed second.state
second_inv = on_udp-IsWellFormed [] first init src now (7 ∷ []) true first_inv

abbrev pub inner : List ℕ
inner = 69 ∷ 0 ∷ 0 ∷ 20 ∷ 0 ∷ 0 ∷ 0 ∷ 0 ∷ 64 ∷ 17 ∷ 0 ∷ 0 ∷ 10 ∷ 8 ∷ 0 ∷ 2 ∷ 10 ∷ 8 ∷ 0 ∷ 2 ∷ []

abbrev flight : Flight
flight = record { nonce = 0; plain = inner; ct = inner ++ (0 ∷ replicate 15 0) }

abbrev packet : List ℕ
packet = packet_of 7 flight

abbrev events : List Event
events = attempt (v4 1) 1 ∷ attempt (v4 1) 2 ∷ attempt (v4 1) 3 ∷ []

rate_new-spec_run_example :
    Refines.run (rate_new 2 60) events
    ≡ Refines.spec_run (from_secs (max 60 1)) (max 2 1) (λ _. []) events
rate_new-spec_run_example =
    rate_new-spec_run 2 60 events (omega arith) (omega arith, (omega arith, (omega arith, tt)))

handle_handshake-IsEstablished_example :
    After (IsEstablished first src now) (handle_handshake [] first init src now (7 ∷ []))
handle_handshake-IsEstablished_example =
    handle_handshake-IsEstablished [] first init src now (7 ∷ [])

-- A handshake message of a peer that is not configured.
abbrev stranger : List ℕ
stranger = 1 ∷ 4 ∷ []

turned_away :
    handle_handshake [] first stranger src now (7 ∷ [])
    ≡ some (admitted first src now, err (bail "unknown peer public key"))
unfolding handle_handshake allow start rate_new lookup responder_new alloc_index contains_key
    responder_finish remote_static from_transport peer_table insert list_beq
turned_away = refl

on_udp-refused_example :
    on_udp [] first stranger src now (7 ∷ []) true
    ≡ quiet (with_stats record_handshake_fail (admitted first src now))
on_udp-refused_example =
    on_udp-refused [] first (admitted first src now) stranger src now (7 ∷ []) true
      (bail "unknown peer public key") refl refl turned_away

on_udp-IsAuthorized_example :
    Writes (IsAuthorized second packet) (on_udp [] second packet src now [] true).outputs
on_udp-IsAuthorized_example = on_udp-IsAuthorized [] second packet src now [] true

on_tun-IsRouted_example : Sends (IsRouted second inner) (on_tun second inner now true).outputs
on_tun-IsRouted_example = on_tun-IsRouted second inner now true second_inv

reap-survives_example :
    ((index : ℕ)
      → lookup index (reap 120 9000000000000 second).state.by_index
        ≡ kept (survives 120 9000000000000) index (lookup index second.state.by_index))
    × ((reap 120 9000000000000 second).stats.active_sessions
        ≡ length (reap 120 9000000000000 second).state.by_index)
    × ((reap 120 9000000000000 second).stats.peers
        ≡ peer_snapshots (reap 120 9000000000000 second).state 9000000000000)
reap-survives_example = reap-survives 120 9000000000000 second second_inv

-- A session in the tables.
abbrev pub live : LiveSession toy
live = record {
  session = record {
    index = 7;
    transport = record { sending = 0; receiving = 0; remote = some (9 ∷ []) };
    send_nonce = 0;
    replay = default;
  };
  peer_addr = src;
  tunnel_ip = peer_ip;
  last_seen = 0;
  established = 0;
}

abbrev pub busy : Server toy
busy = record first {
  state = record (first.state) { by_index = (7, live) ∷ []; by_ip = (peer_ip, 7) ∷ [] };
}

pub known : lookup 7 busy.state.by_index ≡ some live
unfolding lookup
known = refl

pub from_peer : ipv4_src inner ≡ some peer_ip
unfolding ipv4_src is_ipv4
from_peer = refl

pub enabled : busy.stats.enabled ≡ true
unfolding start stats
enabled = refl

-- After a packet from another endpoint.
abbrev other_src : SocketAddr
other_src = record { ip = v4 3405803778; port = 40001 }

abbrev moved : LiveSession toy
moved = record live {
  session = (decrypt live.session packet 65535).0;
  peer_addr = other_src;
  last_seen = now.instant;
}

moved_known : lookup 7 (on_data busy packet other_src now true).server.state.by_index ≡ some moved
unfolding on_data lookup decrypt start stats to_le_bytes from_le_bytes check_and_update test_bit
    set_bit read_body list_beq policy is_ipv4 ipv4_src record_rx insert
moved_known = refl

on_data-peer_addr_example : IsTraced busy packet other_src 7 moved
on_data-peer_addr_example = on_data-peer_addr busy packet other_src now true 7 moved moved_known

-- A session whose index has the low byte 1.
abbrev client : Session toy
client = record {
  index = 257;
  transport = record { sending = 0; receiving = 0; remote = none };
  send_nonce = 0;
  replay = default;
}

abbrev sealed : List ℕ
sealed = header 257 0 ++ flight.ct

sealed_by : (encrypt client inner 65535).1 ≡ ok sealed
unfolding encrypt
sealed_by = refl

encrypt-misrouted_example :
    on_udp [] busy sealed src now (7 ∷ []) true
    ≡ answered busy src (handle_handshake [] busy sealed src now (7 ∷ []))
encrypt-misrouted_example =
    encrypt-misrouted [] busy client inner sealed 65535 src now (7 ∷ []) true refl sealed_by

toy_write :
    (t : Toy) (plain : List ℕ) (room : ℕ)
    → toy.get_remote_static (toy.write_message t plain room).0 ≡ t.remote
toy_write t plain room = ground arith

toy_keeps : KeepsRemote toy
toy_keeps = record {
  write = λ t plain room. toy_write t plain room;
  set = λ t nonce. refl;
  read = λ t ct room. refl;
}

visited : Reachable [] 120 first (reap 120 9000000000 second)
visited =
    then_step (then_step started (downlink first init src now (7 ∷ []) true))
      (tick second 9000000000)

Reachable-safe_example :
    let sv = reap 120 9000000000 second in
    IsWellFormed sv.state
    × ((index : ℕ) (entry : LiveSession toy)
        → lookup index sv.state.by_index ≡ some entry
        → IsOfPeer ((9 ∷ [], peer_ip) ∷ []) entry)
    × ((buf : List ℕ) (from : SocketAddr) (at : Clock) (draws : List ℕ) (written : Bool)
        → Writes (IsAuthorized sv buf) (on_udp [] sv buf from at draws written).outputs)
    × ((plain : List ℕ) (at : Clock) (sent : Bool)
        → Sends (IsRouted sv plain) (on_tun sv plain at sent).outputs)
Reachable-safe_example =
    Reachable-safe [] 120 ((9 ∷ [], peer_ip) ∷ []) 10 60 stats (reap 120 9000000000 second)
      toy_keeps visited
