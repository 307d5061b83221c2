-- ===== src/Server/Uplink.antt =====
-- src/server.rs, the task that carries packets from the TUN device to the socket (lines 307-352). One
-- round of its loop is a function of the packet read; whether the send at its end succeeds is an
-- argument. A read that fails ends the task like a read of no bytes.
pub mod Laws
use soulvpn.Base.{
  ℕ, ◌==◌, Bool, true, false, not, Option, none, some, List, [], ◌∷◌, length, if◌then◌else◌, lookup,
  nat_eq, Result, ok, err,
}
use soulvpn.Packet.{ipv4_dst}
use soulvpn.Crypto.Noise.{Noise}
use soulvpn.Crypto.Session.{Session, encrypt, max_message}
use soulvpn.Stats.{Clock, is_enabled, record_tx, record_encrypt_err}
use soulvpn.Server.State.{LiveSession, Server}
use soulvpn.Server.Downlink.{Round, send_to, break, continue, quiet, with_stats, store}

-- A failed send is only logged.
abbrev pub sent_stats : {n : Noise} → List ℕ → Clock → Bool → Server n → Server n
sent_stats plain now true sv = with_stats (record_tx (length plain) now) sv
sent_stats plain now false sv = sv

-- Lines 334-350.
abbrev pub carried :
    {n : Noise}
    → Server n
    → List ℕ
    → Clock
    → Bool
    → ℕ
    → LiveSession n
    → Session n × Result (List ℕ)
    → Round n
carried sv plain now sent index live (session, err e) =
    quiet (with_stats record_encrypt_err (store index (record live { session = session }) sv))
carried sv plain now sent index live (session, ok wire) = record {
  server =
      sent_stats plain now sent
        (store index (record live { session = session; last_seen = now.instant }) sv);
  outputs = send_to wire live.peer_addr ∷ [];
  flow = continue;
}

-- The lookups in the two tables.
unfoldable pub find_route : {n : Noise} → Server n → ℕ → Option (ℕ × LiveSession n)
find_route sv dst = elim (lookup dst sv.state.by_ip) [
  | none ↦ none
  | some index ↦ elim (lookup index sv.state.by_index) [
    | none ↦ none
    | some live ↦ some (index, live)
  ]
]

abbrev pub routed :
    {n : Noise} → Server n → List ℕ → Clock → Bool → Option (ℕ × LiveSession n) → Round n
routed sv plain now sent none = quiet sv
routed sv plain now sent (some (index, live)) =
    carried sv plain now sent index live (encrypt live.session plain max_message)

abbrev pub addressed : {n : Noise} → Server n → List ℕ → Clock → Bool → Option ℕ → Round n
addressed sv plain now sent none = quiet sv
addressed sv plain now sent (some dst) = routed sv plain now sent (find_route sv dst)

unfoldable pub on_tun : {n : Noise} → Server n → List ℕ → Clock → Bool → Round n
on_tun sv plain now sent =
    if length plain == 0
    then record { server = sv; outputs = []; flow = break }
    else if not (is_enabled sv.stats)
    then quiet sv
    else addressed sv plain now sent (ipv4_dst plain)
