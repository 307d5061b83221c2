-- ===== src/Config/Toml.antt =====
-- The configurations of src/config.rs, and what `serde` puts where a key is not written.
use soulvpn.Base.{ℕ, Bool, true, false, Option, none, some, List, [], SocketAddr, codes}
use soulvpn.Config.Chars.{Text}

pub record PeerConfig : Type 0 where
  pub public_key : Text
  pub allowed_ip : Text

pub record ServerConfig : Type 0 where
  pub listen : SocketAddr
  pub private_key : Option Text
  pub private_key_file : Option Text
  pub address : Text
  pub mtu : ℕ
  pub nat : Bool
  pub handshake_rate_limit : ℕ
  pub handshake_rate_window_secs : ℕ
  pub session_idle_secs : ℕ
  pub control_mode : Text
  pub peers : List PeerConfig

pub record ClientConfig : Type 0 where
  pub endpoint : SocketAddr
  pub private_key : Option Text
  pub private_key_file : Option Text
  pub server_public_key : Option Text
  pub server_public_key_file : Option Text
  pub address : Text
  pub mtu : ℕ
  pub redirect_all : Bool
  pub kill_switch : Bool
  pub disable_ipv6 : Bool
  pub dns : List Text
  pub keepalive_secs : ℕ
  pub rekey_secs : ℕ
  pub reconnect_timeout_secs : ℕ
  pub control_mode : Text

abbrev pub default_mtu : ℕ
default_mtu = 1400

abbrev pub default_true : Bool
default_true = true

abbrev pub default_hs_rate : ℕ
default_hs_rate = 10

abbrev pub default_hs_window : ℕ
default_hs_window = 10

abbrev pub default_session_idle : ℕ
default_session_idle = 180

abbrev pub default_keepalive : ℕ
default_keepalive = 25

abbrev pub default_rekey : ℕ
default_rekey = 120

abbrev pub default_reconnect : ℕ
default_reconnect = 45

abbrev pub default_control_mode : Text
default_control_mode = codes "0600"

-- The keys that are written in a file: `none` where a key with a default is missing.
pub record ServerToml : Type 0 where
  pub listen : SocketAddr
  pub private_key : Option Text
  pub private_key_file : Option Text
  pub address : Text
  pub mtu : Option ℕ
  pub nat : Option Bool
  pub handshake_rate_limit : Option ℕ
  pub handshake_rate_window_secs : Option ℕ
  pub session_idle_secs : Option ℕ
  pub control_mode : Option Text
  pub peers : List PeerConfig

pub record ClientToml : Type 0 where
  pub endpoint : SocketAddr
  pub private_key : Option Text
  pub private_key_file : Option Text
  pub server_public_key : Option Text
  pub server_public_key_file : Option Text
  pub address : Text
  pub mtu : Option ℕ
  pub redirect_all : Option Bool
  pub kill_switch : Option Bool
  pub disable_ipv6 : Option Bool
  pub dns : Option (List Text)
  pub keepalive_secs : Option ℕ
  pub rekey_secs : Option ℕ
  pub reconnect_timeout_secs : Option ℕ
  pub control_mode : Option Text

abbrev pub or_default {ℓ} : {A : Type ℓ} → Option A → A → A
or_default none default = default
or_default (some value) default = value

-- The attributes `#[serde(default)]`.
unfoldable pub filled_server : ServerToml → ServerConfig
filled_server written = record {
  listen = written.listen;
  private_key = written.private_key;
  private_key_file = written.private_key_file;
  address = written.address;
  mtu = or_default written.mtu default_mtu;
  nat = or_default written.nat false;
  handshake_rate_limit = or_default written.handshake_rate_limit default_hs_rate;
  handshake_rate_window_secs = or_default written.handshake_rate_window_secs default_hs_window;
  session_idle_secs = or_default written.session_idle_secs default_session_idle;
  control_mode = or_default written.control_mode default_control_mode;
  peers = written.peers;
}

unfoldable pub filled_client : ClientToml → ClientConfig
filled_client written = record {
  endpoint = written.endpoint;
  private_key = written.private_key;
  private_key_file = written.private_key_file;
  server_public_key = written.server_public_key;
  server_public_key_file = written.server_public_key_file;
  address = written.address;
  mtu = or_default written.mtu default_mtu;
  redirect_all = or_default written.redirect_all default_true;
  kill_switch = or_default written.kill_switch false;
  disable_ipv6 = or_default written.disable_ipv6 default_true;
  dns = or_default written.dns [];
  keepalive_secs = or_default written.keepalive_secs default_keepalive;
  rekey_secs = or_default written.rekey_secs default_rekey;
  reconnect_timeout_secs = or_default written.reconnect_timeout_secs default_reconnect;
  control_mode = or_default written.control_mode default_control_mode;
}
