-- ===== src/Server/Run.antt =====
-- src/server.rs, `run` (lines 101-117 and 165-352): the tables at the start, and the tasks that change
-- them. Each round of a task is one step; a round takes the lock for what it does to the tables, and
-- only the task from the socket enters sessions.
pub mod Laws
pub mod Peers
pub mod Sessions
pub mod Identity
use soulvpn.Base.{ℕ, Bool, List, [], ◌∷◌, Map, insert, bytes_eq, SocketAddr}
use soulvpn.Crypto.Noise.{Noise}
use soulvpn.Stats.{Clock, RuntimeStats, set_enabled}
use soulvpn.Server.RateLimit.{rate_new}
use soulvpn.Server.State.{PeerMeta, State, Server}
use soulvpn.Server.Downlink.{Round, on_udp}
use soulvpn.Server.Uplink.{on_tun}
use soulvpn.Server.Reaper.{reap}

-- The decoded key and address of each configured peer.
unfoldable pub peer_table : List (List ℕ × ℕ) → Map (List ℕ) PeerMeta → Map (List ℕ) PeerMeta
peer_table [] peers = peers
peer_table ((key, tip) ∷ rest) peers =
    peer_table rest (insert key (record { tunnel_ip = tip }) peers)

unfoldable pub start : {n : Noise} → List (List ℕ × ℕ) → ℕ → ℕ → RuntimeStats → Server n
start cfg_peers rate_limit rate_window_secs stats = record {
  state = record {
    by_index = [];
    by_ip = [];
    peers = peer_table cfg_peers [];
    rate = rate_new rate_limit rate_window_secs;
  };
  stats = stats;
}

-- The rounds of the tasks, for a private key and an idle time; the control task turns the data plane
-- on and off.
pub data Step {n : Noise} (private : List ℕ) (idle_secs : ℕ) : Server n → Server n → Type 0 where
  downlink :
      (sv : Server n) (buf : List ℕ) (src : SocketAddr) (now : Clock) (draws : List ℕ)
      (written : Bool)
      → Step private idle_secs sv (on_udp private sv buf src now draws written).server
  uplink :
      (sv : Server n) (plain : List ℕ) (now : Clock) (sent : Bool)
      → Step private idle_secs sv (on_tun sv plain now sent).server
  tick : (sv : Server n) (now : ℕ) → Step private idle_secs sv (reap idle_secs now sv)
  control :
      (sv : Server n) (on : Bool) (now : Clock)
      → Step private idle_secs sv (record sv { stats = set_enabled on now sv.stats })

-- What the rounds lead to, in any order and number.
pub data Reachable {n : Noise} (private : List ℕ) (idle_secs : ℕ) (first : Server n)
    : Server n → Type 0 where
  started : Reachable private idle_secs first first
  then_step :
      {sv sv' : Server n}
      → Reachable private idle_secs first sv
      → Step private idle_secs sv sv'
      → Reachable private idle_secs first sv'
