-- ===== src/Server/Downlink.antt =====
-- src/server.rs, the task that carries packets from the socket to the TUN device (lines 207-305).
-- One round of its loop is a function of the received datagram; the result of the send or write at
-- its end is an argument.
pub mod Cases
pub mod Laws
pub mod Delivery
pub mod Stream
use soulvpn.Base.{
  ℕ, ◌==◌, Bool, true, false, not, Option, none, some, List, [], ◌∷◌, length, get_or, take, ltb,
  if◌then◌else◌, lookup, insert, SocketAddr, nat_eq, Result, ok, err, from_le_bytes,
}
use soulvpn.Packet.{is_ipv4, ipv4_src}
use soulvpn.Crypto.Noise.{Noise}
use soulvpn.Crypto.Session.{Session, decrypt, header_index, max_message}
use soulvpn.Stats.{
  Clock, RuntimeStats, is_enabled, touch_activity, record_policy_drop, record_rx,
  record_decrypt_err, record_handshake_fail,
}
use soulvpn.Server.State.{LiveSession, State, Server}
use soulvpn.Server.Handshake.{handle_handshake}

-- What a round hands to the outside.
pub data Output : Type 0 where
  send_to : List ℕ → SocketAddr → Output
  write_tun : List ℕ → Output

-- `pending` is a handshake that still draws an index.
pub data Flow : Type 0 where
  continue break pending : Flow

pub record Round (n : Noise) : Type 0 where
  pub server : Server n
  pub outputs : List Output
  pub flow : Flow

abbrev pub quiet : {n : Noise} → Server n → Round n
quiet sv = record { server = sv; outputs = []; flow = continue }

-- What becomes of a decrypted packet of a session with the address `tunnel_ip`.
pub data Verdict : Type 0 where
  keepalive deliver drop_packet : Verdict

abbrev pub source_verdict : Option ℕ → ℕ → Verdict
source_verdict none tunnel_ip = drop_packet
source_verdict (some pkt_src) tunnel_ip =
    if not (pkt_src == tunnel_ip) then drop_packet else deliver

-- Lines 264-287.
unfoldable pub policy : List ℕ → ℕ → Verdict
policy plain tunnel_ip =
    if length plain == 0
    then keepalive
    else if not (is_ipv4 plain)
    then drop_packet
    else source_verdict (ipv4_src plain) tunnel_ip

abbrev pub with_stats : {n : Noise} → (RuntimeStats → RuntimeStats) → Server n → Server n
with_stats f sv = record sv { stats = f sv.stats }

-- Lines 288-294; `written` is whether the write to the device succeeds.
abbrev pub act : {n : Noise} → Server n → List ℕ → Clock → Bool → Verdict → Round n
act sv plain now written keepalive = quiet (with_stats (touch_activity now) sv)
act sv plain now written drop_packet = quiet (with_stats record_policy_drop sv)
act sv plain now true deliver = record {
  server = with_stats (record_rx (length plain) now) sv;
  outputs = write_tun plain ∷ [];
  flow = continue;
}
act sv plain now false deliver = record {
  server = sv;
  outputs = write_tun plain ∷ [];
  flow = break;
}

-- The session's entry is written back under its index.
abbrev pub store : {n : Noise} → ℕ → LiveSession n → Server n → Server n
store index live sv = record sv {
  state = record (sv.state) { by_index = insert index live (sv.state).by_index };
}

-- Lines 256-301.
abbrev pub received :
    {n : Noise}
    → Server n
    → ℕ
    → LiveSession n
    → SocketAddr
    → Clock
    → Bool
    → Session n × Result (List ℕ)
    → Round n
received sv index live src now written (session, err e) =
    quiet (with_stats record_decrypt_err (store index (record live { session = session }) sv))
received sv index live src now written (session, ok plain) =
    act
      (store index (record live { session = session; peer_addr = src; last_seen = now.instant }) sv)
      plain now written (policy plain live.tunnel_ip)

-- Lines 244-302.
unfoldable pub on_data : {n : Noise} → Server n → List ℕ → SocketAddr → Clock → Bool → Round n
on_data sv buf src now written =
    if not (is_enabled sv.stats)
    then quiet sv
    else if ltb (length buf) 12
    then quiet sv
    else elim (lookup (header_index buf) sv.state.by_index) [
      | none ↦ quiet sv
      | some live ↦
          received sv (header_index buf) live src now written (decrypt live.session buf max_message)
    ]

-- Lines 228-241; a failed send is only logged.
abbrev pub answered :
    {n : Noise} → Server n → SocketAddr → Option (Server n × Result (List ℕ)) → Round n
answered sv src none = record { server = sv; outputs = []; flow = pending }
answered sv src (some (sv', ok response)) = record {
  server = sv';
  outputs = send_to response src ∷ [];
  flow = continue;
}
answered sv src (some (sv', err e)) = quiet (with_stats record_handshake_fail sv')

unfoldable pub on_udp :
    {n : Noise} → List ℕ → Server n → List ℕ → SocketAddr → Clock → List ℕ → Bool → Round n
on_udp private sv buf src now draws written =
    if length buf == 0
    then quiet sv
    else if get_or buf 0 0 == 1
    then answered sv src (handle_handshake private sv buf src now draws)
    else on_data sv buf src now written
