-- ===== src/Server/State.antt =====
-- src/server.rs, `LiveSession` and `State` (lines 19-29 and 64-94): the tables that the tasks of the
-- server share under one lock.
pub mod Alloc
use soulvpn.Base.{
  ℕ, ◌-◌, Option, none, some, List, [], ◌∷◌, map, length, if◌then◌else◌, Map, contains_key,
  SocketAddr, nat_eq, bytes_eq,
}
use soulvpn.Crypto.Noise.{Noise}
use soulvpn.Crypto.Session.{Session}
use soulvpn.Stats.{PeerSnapshot, RuntimeStats, as_secs, set_peers, set_sessions}
use soulvpn.Server.RateLimit.{RateLimit}

pub record LiveSession (n : Noise) : Type 0 where
  pub session : Session n
  pub peer_addr : SocketAddr
  pub tunnel_ip : ℕ
  pub last_seen : ℕ
  pub established : ℕ

pub record PeerMeta : Type 0 where
  pub tunnel_ip : ℕ

pub record State (n : Noise) : Type 0 where
  pub by_index : Map ℕ (LiveSession n)
  pub by_ip : Map ℕ ℕ
  pub peers : Map (List ℕ) PeerMeta
  pub rate : RateLimit

-- A draw of `random_session_index` that is no key of `by_index`; every round uses up a draw, and
-- `none` is the loop that still runs when the given draws are used up.
unfoldable pub alloc_index : {n : Noise} → State n → List ℕ → Option ℕ
alloc_index st [] = none
alloc_index st (idx ∷ draws) =
    let again = alloc_index st draws in if contains_key idx st.by_index then again else some idx

abbrev pub peer_snapshot : {n : Noise} → ℕ → LiveSession n → PeerSnapshot
peer_snapshot now live = record {
  tunnel_ip = live.tunnel_ip;
  endpoint = live.peer_addr;
  session_index = live.session.index;
  last_handshake_ago_secs = as_secs (now - live.established);
  idle_secs = as_secs (now - live.last_seen);
}

unfoldable pub peer_snapshots : {n : Noise} → State n → ℕ → List PeerSnapshot
peer_snapshots st now = map (λ entry. peer_snapshot now entry.1) st.by_index

-- The shared state of the server's tasks: the tables under their lock, and the statistics.
pub record Server (n : Noise) : Type 0 where
  pub state : State n
  pub stats : RuntimeStats

-- `guard.by_index.len() as u64` and the snapshots, published after a change.
unfoldable pub publish : {n : Noise} → ℕ → Server n → Server n
unfolding peer_snapshots
publish now sv = record sv {
  stats =
      set_peers (peer_snapshots sv.state now) (set_sessions (length sv.state.by_index) sv.stats);
}
