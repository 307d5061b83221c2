-- ===== src/Stats.antt =====
-- src/stats.rs, `RuntimeStats` and `StatusSnapshot` (lines 10-193 and 283-288): the counters that the tasks share.
-- Every field is an atomic or under a mutex, and each operation is one step. A counter is a u64, and
-- `fetch_add` wraps. The wall clock of a call is an argument, in milliseconds; an `Instant` is a number
-- of nanoseconds, and `duration_since` stops at 0, as `-` does. A peer's addresses are kept as
-- addresses, not as their texts.
pub mod Format
use soulvpn.Base.{ℕ, ◌+◌, ◌-◌, ◌*◌, ◌/◌, ◌%◌, ◌^◌, Bool, true, List, [], SocketAddr}
use soulvpn.Config.Chars.{Text}

pub data Role : Type 0 where
  client server : Role

pub record PeerSnapshot : Type 0 where
  pub tunnel_ip : ℕ
  pub endpoint : SocketAddr
  pub session_index : ℕ
  pub last_handshake_ago_secs : ℕ
  pub idle_secs : ℕ

pub record RuntimeStats : Type 0 where
  pub role : Role
  pub started : ℕ
  pub endpoint : SocketAddr
  pub address : Text
  pub tun_name : Text
  pub enabled : Bool
  pub tx_packets : ℕ
  pub rx_packets : ℕ
  pub tx_bytes : ℕ
  pub rx_bytes : ℕ
  pub encrypt_errors : ℕ
  pub decrypt_errors : ℕ
  pub policy_drops : ℕ
  pub handshakes_ok : ℕ
  pub handshakes_fail : ℕ
  pub reconnects : ℕ
  pub active_sessions : ℕ
  pub last_activity_ms : ℕ
  pub peers : List PeerSnapshot

-- What the clocks show: `Instant::now()` in nanoseconds, and `now_ms()`.
pub record Clock : Type 0 where
  pub instant : ℕ
  pub wall_ms : ℕ

-- `Duration::from_secs` and `Duration::as_secs`.
abbrev pub from_secs : ℕ → ℕ
from_secs s = s * 1000000000

abbrev pub as_secs : ℕ → ℕ
as_secs d = d / 1000000000

-- `fetch_add` on an `AtomicU64`.
abbrev pub fetch_add : ℕ → ℕ → ℕ
fetch_add x d = (x + d) % 2 ^ 64

unfoldable pub new : Role → SocketAddr → Text → Text → Clock → RuntimeStats
new role endpoint address tun_name now = record {
  role = role;
  started = now.instant;
  endpoint = endpoint;
  address = address;
  tun_name = tun_name;
  enabled = true;
  tx_packets = 0;
  rx_packets = 0;
  tx_bytes = 0;
  rx_bytes = 0;
  encrypt_errors = 0;
  decrypt_errors = 0;
  policy_drops = 0;
  handshakes_ok = 0;
  handshakes_fail = 0;
  reconnects = 0;
  active_sessions = 0;
  last_activity_ms = now.wall_ms;
  peers = [];
}

abbrev pub touch : Clock → RuntimeStats → RuntimeStats
touch now s = record s { last_activity_ms = now.wall_ms }

abbrev pub is_enabled : RuntimeStats → Bool
is_enabled s = s.enabled

unfoldable pub set_enabled : Bool → Clock → RuntimeStats → RuntimeStats
set_enabled on now s = touch now (record s { enabled = on })

unfoldable pub record_tx : ℕ → Clock → RuntimeStats → RuntimeStats
record_tx bytes now s =
    touch now
      (record s { tx_packets = fetch_add s.tx_packets 1; tx_bytes = fetch_add s.tx_bytes bytes })

unfoldable pub record_rx : ℕ → Clock → RuntimeStats → RuntimeStats
record_rx bytes now s =
    touch now
      (record s { rx_packets = fetch_add s.rx_packets 1; rx_bytes = fetch_add s.rx_bytes bytes })

unfoldable pub touch_activity : Clock → RuntimeStats → RuntimeStats
touch_activity now s = touch now s

unfoldable pub record_encrypt_err : RuntimeStats → RuntimeStats
record_encrypt_err s = record s { encrypt_errors = fetch_add s.encrypt_errors 1 }

unfoldable pub record_decrypt_err : RuntimeStats → RuntimeStats
record_decrypt_err s = record s { decrypt_errors = fetch_add s.decrypt_errors 1 }

unfoldable pub record_policy_drop : RuntimeStats → RuntimeStats
record_policy_drop s = record s { policy_drops = fetch_add s.policy_drops 1 }

unfoldable pub record_handshake_ok : Clock → RuntimeStats → RuntimeStats
record_handshake_ok now s = touch now (record s { handshakes_ok = fetch_add s.handshakes_ok 1 })

unfoldable pub record_handshake_fail : RuntimeStats → RuntimeStats
record_handshake_fail s = record s { handshakes_fail = fetch_add s.handshakes_fail 1 }

unfoldable pub record_reconnect : RuntimeStats → RuntimeStats
record_reconnect s = record s { reconnects = fetch_add s.reconnects 1 }

unfoldable pub set_sessions : ℕ → RuntimeStats → RuntimeStats
set_sessions n s = record s { active_sessions = n }

unfoldable pub set_peers : List PeerSnapshot → RuntimeStats → RuntimeStats
set_peers peers s = record s { peers = peers }

pub record StatusSnapshot : Type 0 where
  pub role : Role
  pub enabled : Bool
  pub uptime_secs : ℕ
  pub tx_packets : ℕ
  pub rx_packets : ℕ
  pub tx_bytes : ℕ
  pub rx_bytes : ℕ
  pub encrypt_errors : ℕ
  pub decrypt_errors : ℕ
  pub policy_drops : ℕ
  pub handshakes_ok : ℕ
  pub handshakes_fail : ℕ
  pub reconnects : ℕ
  pub active_sessions : ℕ
  pub last_activity_ms : ℕ
  pub endpoint : SocketAddr
  pub address : Text
  pub tun_name : Text
  pub pid : ℕ
  pub peers : List PeerSnapshot

unfoldable pub snapshot : ℕ → Clock → RuntimeStats → StatusSnapshot
snapshot pid now s = record {
  role = s.role;
  enabled = is_enabled s;
  uptime_secs = as_secs (now.instant - s.started);
  tx_packets = s.tx_packets;
  rx_packets = s.rx_packets;
  tx_bytes = s.tx_bytes;
  rx_bytes = s.rx_bytes;
  encrypt_errors = s.encrypt_errors;
  decrypt_errors = s.decrypt_errors;
  policy_drops = s.policy_drops;
  handshakes_ok = s.handshakes_ok;
  handshakes_fail = s.handshakes_fail;
  reconnects = s.reconnects;
  active_sessions = s.active_sessions;
  last_activity_ms = s.last_activity_ms;
  endpoint = s.endpoint;
  address = s.address;
  tun_name = s.tun_name;
  pid = pid;
  peers = s.peers;
}
