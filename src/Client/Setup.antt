-- ===== src/Client/Setup.antt =====
-- src/client.rs, `run` from its start to the tasks (lines 24-74), and its end (lines 290-298). `?` ends it
-- at the first error. A log line reads the socket's own address, as it does at the level of the client's
-- default.
pub mod Laws
use soulvpn.Base.{List, Bool, Result, ok, codes}
use soulvpn.Config.Chars.{Text}
use soulvpn.Config.{Env}
use soulvpn.Config.Toml.{ClientConfig}
use soulvpn.Crypto.Noise.{Noise}
use soulvpn.Crypto.Session.{Session}
use soulvpn.Route.Os.{Os, Action, ◌>>=◌, ◌>>◌, pure}
use soulvpn.Route.Client as Routes
use soulvpn.Route.Client.{ClientRoutes, ClientRouteOpts, switch_all, teardown_all}
use soulvpn.Devices.{Devices, at, create, unwrap_or}
use soulvpn.Stats.{Clock, new, client, record_handshake_ok, set_sessions}
use soulvpn.Client.{Client, handshake}
use soulvpn.Client.Settings.{Settings, settings}

-- What is there when the tasks start.
pub record Up (n : Noise) : Type 0 where
  pub set : Settings
  pub tun_name : Text
  pub shared : Client n
  pub routes : ClientRoutes

module _ {os : Os} (devices : Devices os) (n : Noise) (env : Env) (cfg : ClientConfig) where
  abbrev pub route_opts : ClientRouteOpts
  route_opts = record {
    redirect_all = cfg.redirect_all;
    kill_switch = cfg.kill_switch;
    disable_ipv6 = cfg.disable_ipv6;
    dns = cfg.dns;
  }

  abbrev pub shake_hands : Settings → Action os.World (Session n)
  shake_hands set w =
      let (w', net) = devices.attempts w in (w', handshake n set.private set.server_pub net)

  -- The socket and the handshake over it.
  unfoldable pub open_session : Settings → Action os.World (Session n)
  open_session set = do
    λ w. at "bind client UDP" (devices.bind_any w)
    λ w. at "connect to server endpoint" (devices.connect cfg.endpoint w)
    _ ← λ w. (w, devices.local_addr w)
    shake_hands set

  abbrev pub shared_of : Clock → Clock → Text → Session n → Client n
  shared_of now later tun_name session = record {
    slot = record {
      session = session;
      established = now.instant;
      last_rx = now.instant;
      last_tx = now.instant;
    };
    stats =
        set_sessions 1
          (record_handshake_ok later (new client cfg.endpoint cfg.address tun_name later));
  }

  -- The TUN device and the routes.
  unfoldable pub open_tunnel : Clock → Clock → Settings → Session n → Action os.World (Up n)
  open_tunnel now later set session = do
    tun ← create devices "soulvpn" set.addr set.prefix cfg.mtu
    let tun_name = unwrap_or (codes "soulvpn") tun
    routes ← Routes.install os cfg.endpoint tun_name route_opts
    pure (record {
      set = set;
      tun_name = tun_name;
      shared = shared_of now later tun_name session;
      routes = routes;
    })

  unfoldable pub set_up : Clock → Clock → Action os.World (Up n)
  set_up now later = do
    set ← λ w. (w, settings env cfg)
    session ← open_session set
    open_tunnel now later set session

  -- What the threads of the hook do to the routes while the tasks run, in the order in which they get the
  -- lock, and the drop of the routes behind them. A thread that is not done at that point, which would
  -- delay the drop, is left out; so is the flag that a thread sets, which the routes do not read.
  abbrev pub used_up : List Bool → Up n → Action os.World (Unit {0})
  used_up ons up w =
      let (st, w') = switch_all os cfg.endpoint cfg.kill_switch ons (up.routes, w) in
      (teardown_all os st w', ok tt)

  unfoldable pub run : List Bool → Clock → Clock → Action os.World (Unit {0})
  run ons now later = set_up now later >>= used_up ons
