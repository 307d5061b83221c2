-- ===== src/Server/Setup.antt =====
-- src/server.rs, `run` from its start to the tasks (lines 118-141), and its end (lines 354-366): what it
-- sets up of the configuration and the host. `?` ends it at the first error. Once a guard is made nothing
-- can fail until the tasks run.
pub mod Laws
use soulvpn.Base.{
  ℕ, Bool, true, false, Option, none, some, List, [], ◌∷◌, if◌then◌else◌, Result, ok, err, codes,
  with_context,
}
use soulvpn.Config.Chars.{Text}
use soulvpn.Config.{Env}
use soulvpn.Config.Toml.{ServerConfig}
use soulvpn.Config.Show.{show_cidr}
use soulvpn.Route.Os.{Os, Action, ◌>>=◌, ◌>>◌, pure}
use soulvpn.Route.Nat
use soulvpn.Route.Nat.{NatGuard}
use soulvpn.Crypto.Noise.{Noise}
use soulvpn.TunDev.{ipv4_network}
use soulvpn.Devices.{Devices, at, create, unwrap_or}
use soulvpn.Stats.{Clock, new, server}
use soulvpn.Server.State.{Server}
use soulvpn.Server.Run.{start}
use soulvpn.Server.Settings.{Settings, settings}

-- What is there when the tasks start.
pub record Up (n : Noise) : Type 0 where
  pub set : Settings
  pub tun_name : Text
  pub nat_guard : Option NatGuard
  pub tables : Server n

module _ {os : Os} (devices : Devices os) (n : Noise) (env : Env) (cfg : ServerConfig) where
  abbrev pub cidr_of : Settings → Text
  cidr_of set = show_cidr (ipv4_network set.addr set.prefix) set.prefix

  -- Lines 125-131.
  unfoldable pub guard_nat : Settings → Action os.World (Option NatGuard)
  guard_nat set =
      if cfg.nat then Nat.setup os (cidr_of set) >>= (λ made. pure (some made)) else pure none

  abbrev pub tables_of : Clock → Settings → Text → Server n
  tables_of now set tun_name =
      start set.peers cfg.handshake_rate_limit cfg.handshake_rate_window_secs
        (new server cfg.listen cfg.address tun_name now)

  abbrev pub open_devices : Settings → Action os.World Text
  open_devices set = do
    λ w. at "bind" (devices.bind cfg.listen w)
    tun_name ← create devices "soulvpn0" set.addr set.prefix cfg.mtu
    pure (unwrap_or (codes "soulvpn0") tun_name)

  unfoldable pub set_up : Clock → Action os.World (Up n)
  set_up now = do
    set ← λ w. (w, settings env cfg)
    tun_name ← open_devices set
    nat_guard ← guard_nat set
    pure (record {
      set = set;
      tun_name = tun_name;
      nat_guard = nat_guard;
      tables = tables_of now set tun_name;
    })

abbrev pub drop_nat : (os : Os) → Option NatGuard → os.World → os.World
drop_nat os none w = w
drop_nat os (some guarding) w = Nat.remove os guarding w

-- The end of `run`: the guard is dropped.
unfoldable pub shut_down : {n : Noise} (os : Os) → Up n → os.World → os.World
shut_down os up w = drop_nat os up.nat_guard w
