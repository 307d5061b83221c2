-- ===== src/Devices.antt =====
-- The sockets and the TUN device as src/server.rs, src/client.rs and src/tun_dev.rs (`create`, lines 6-22)
-- open them. The calls of tokio and of the `tun` crate are the parameter `Devices`.
use soulvpn.Base.{ℕ, List, Result, ok, err, with_context, String, codes, SocketAddr}
use soulvpn.Config.Chars.{Text}
use soulvpn.Route.Os.{Os, Action}
use soulvpn.Client.{Attempt}
use soulvpn.TunDev.{prefix_to_netmask}

-- `tun::Configuration`, of a device that is brought up.
pub record Configuration : Type 0 where
  pub tun_name : Text
  pub address : ℕ
  pub netmask : ℕ
  pub mtu : ℕ

-- A device is given by what `tun_name()` of it returns. `attempts` is the time in which a handshake
-- sends and waits: what comes of the message of each attempt.
pub record Devices (os : Os) : Type 0 where
  pub bind : SocketAddr → Action os.World (Unit {0})
  pub bind_any : Action os.World (Unit {0})
  pub connect : SocketAddr → Action os.World (Unit {0})
  pub local_addr : os.World → Result SocketAddr
  pub create_as_async : Configuration → Action os.World (Result Text)
  pub attempts : os.World → os.World × (ℕ → List ℕ → Attempt)

-- `.context` on a call.
abbrev pub at : {W A : Type 0} → String → W × Result A → W × Result A
at message (w, r) = (w, with_context message r)

abbrev pub unwrap_or : Text → Result Text → Text
unwrap_or fallback (ok name) = name
unwrap_or fallback (err e) = fallback

module _ {os : Os} (devices : Devices os) where
  unfoldable pub create : String → ℕ → ℕ → ℕ → Action os.World (Result Text)
  create name_hint address prefix mtu w = at "create TUN (need CAP_NET_ADMIN / root)" (
      devices.create_as_async
        (record {
          tun_name = codes name_hint;
          address = address;
          netmask = prefix_to_netmask prefix;
          mtu = mtu;
        })
        w)
