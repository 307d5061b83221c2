-- ===== src/Server/Handshake.antt =====
-- src/server.rs, `handle_handshake` (lines 369-437). Its three critical sections are functions of
-- their own: the rate limit, the choice of an index, and the entry into the tables. The clock is read
-- once for a call.
pub mod Tables
pub mod Cases
pub mod Laws
use soulvpn.Base.{
  ℕ, ◌==◌, Bool, true, false, Option, none, some, List, if◌then◌else◌, Map, lookup, insert, remove,
  contains_key, SocketAddr, nat_eq, bytes_eq, Result, ok, err, bail,
}
use soulvpn.Crypto.Noise.{Noise}
use soulvpn.Crypto.Session.{Session, remote_static}
use soulvpn.Crypto.Handshake.{responder_new, responder_finish}
use soulvpn.Stats.{Clock, record_handshake_ok}
use soulvpn.Server.RateLimit.{allow}
use soulvpn.Server.State.{LiveSession, PeerMeta, State, Server, alloc_index, publish}

-- `if let Some(old_idx) = guard.by_ip.remove(&tunnel_ip) { … }`
unfoldable pub evict : {n : Noise} → ℕ → State n → State n
evict tunnel_ip st = elim (lookup tunnel_ip st.by_ip) [
  | none ↦ st
  | some old_idx ↦ record st {
    by_ip = remove tunnel_ip st.by_ip;
    by_index = remove old_idx st.by_index;
  }
]

-- The two inserts of a new session.
unfoldable pub enter : {n : Noise} → ℕ → LiveSession n → State n → State n
enter index live st = record st {
  by_ip = insert live.tunnel_ip index st.by_ip;
  by_index = insert index live st.by_index;
}

abbrev pub live_session : {n : Noise} → Session n → SocketAddr → ℕ → ℕ → LiveSession n
live_session session src tunnel_ip now = record {
  session = session;
  peer_addr = src;
  tunnel_ip = tunnel_ip;
  last_seen = now;
  established = now;
}

-- The last critical section, once the peer is known: lines 407-436.
unfoldable pub install :
    {n : Noise}
    → Server n
    → SocketAddr
    → Clock
    → ℕ
    → Session n
    → List ℕ
    → PeerMeta
    → Server n × Result (List ℕ)
install sv src now index session response peer =
    let st = evict peer.tunnel_ip sv.state in
    if contains_key index st.by_index
    then (record sv { state = st }, err (bail "session index collision; retry handshake"))
    else (let live = live_session session src peer.tunnel_ip now.instant in
        let sv' = publish now.instant (record sv { state = enter index live st }) in
        (record sv' { stats = record_handshake_ok now sv'.stats }, ok response))

-- Lines 398-406: the peer behind a finished handshake.
abbrev pub known_peer :
    {n : Noise}
    → Server n
    → SocketAddr
    → Clock
    → ℕ
    → Session n
    → List ℕ
    → Option (List ℕ)
    → Server n × Result (List ℕ)
known_peer sv src now index session response none =
    (sv, err (bail "missing remote static after IK"))
known_peer sv src now index session response (some remote) = elim (lookup remote sv.state.peers) [
  | none ↦ (sv, err (bail "unknown peer public key"))
  | some peer ↦ install sv src now index session response peer
]

abbrev pub finished :
    {n : Noise}
    → Server n
    → SocketAddr
    → Clock
    → ℕ
    → Result (Session n × List ℕ)
    → Server n × Result (List ℕ)
finished sv src now index (err e) = (sv, err e)
finished sv src now index (ok (session, response)) =
    known_peer sv src now index session response (remote_static session)

-- `none` is the call that still draws an index.
abbrev pub respond :
    {n : Noise}
    → Server n
    → List ℕ
    → SocketAddr
    → Clock
    → List ℕ
    → Result n.Handshake
    → Option (Server n × Result (List ℕ))
respond sv msg src now draws (err e) = some (sv, err e)
respond {n} sv msg src now draws (ok responder) = elim (alloc_index sv.state draws) [
  | none ↦ none
  | some index ↦ some (finished sv src now index (responder_finish n responder msg index))
]

unfoldable pub handle_handshake :
    {n : Noise}
    → List ℕ
    → Server n
    → List ℕ
    → SocketAddr
    → Clock
    → List ℕ
    → Option (Server n × Result (List ℕ))
handle_handshake {n} private sv msg src now draws =
    let (rate, passed) = allow sv.state.rate src.ip now.instant in
    let sv' = record sv { state = record (sv.state) { rate = rate } } in
    if passed
    then respond sv' msg src now draws (responder_new n private)
    else some (sv', err (bail "handshake rate limited"))
