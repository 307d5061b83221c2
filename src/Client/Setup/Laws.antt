-- ===== src/Client/Setup/Laws.antt =====
-- What a run of the client leaves of itself on the host.
use soulvpn.Base.{
  ℕ, ◌≡◌, refl, sym, ap, ◌∙◌, subst, Bool, Option, none, List, Result, ok, err, codes, SocketAddr,
  IpAddr, v4,
}
use soulvpn.Config.Chars.{Text}
use soulvpn.Config.{Env}
use soulvpn.Config.Toml.{ClientConfig}
use soulvpn.Crypto.Noise.{Noise}
use soulvpn.Crypto.Session.{Session}
use soulvpn.Route.Os.{Os, Arg, addr, Action, and_then, ◌>>=◌, ◌>>◌, pure}
use soulvpn.Base.Actions.{and_then_assoc, and_then-pure}
use soulvpn.Route.Os.Laws.{
  Keeps, Preserves, and_then-Preserves, and_then-Keeps, then-Keeps, Fails, Stops, Stops-first,
  Stops-later,
}
use soulvpn.Route.Client as Routes
use soulvpn.Route.Client.{ClientRoutes, low_half, high_half, switch_all, teardown_all}
use soulvpn.Route.Client.Laws.{TidyHost}
use soulvpn.Route.Client.Owned.{Clean, Ends, drop-Clean}
use soulvpn.Devices.{Devices, Configuration, at, create, unwrap_or}
use soulvpn.Stats.{Clock}
use soulvpn.Client.{handshake}
use soulvpn.Client.Settings.{Settings, settings}
use soulvpn.Client.Setup.{
  Up, route_opts, shake_hands, open_session, shared_of, open_tunnel, set_up, used_up, run,
}

module _ {os : Os} (devices : Devices os) where
  -- The calls that open the socket and use it for a handshake do not change what is seen of the host.
  pub record Unseen {X : Type 0} (see : os.World → X) : Type 0 where
    pub bind : Keeps see devices.bind_any
    pub connect : (endpoint : SocketAddr) → Keeps see (devices.connect endpoint)
    pub attempts : (w : os.World) → see (devices.attempts w).0 ≡ see w

  module _ (n : Noise) (env : Env) (cfg : ClientConfig) where
    open_session-Keeps :
        {X : Type 0} (see : os.World → X)
        → Unseen see
        → (set : Settings) → Keeps see (open_session devices n env cfg set)
    unfolding open_session
    open_session-Keeps see unseen set =
        let binds : Action os.World (Unit {0}) = λ w. at "bind client UDP" (devices.bind_any w) in
        let connects : Action os.World (Unit {0}) =
          λ w. at "connect to server endpoint" (devices.connect cfg.endpoint w) in
        let looks : Action os.World SocketAddr = λ w. (w, devices.local_addr w) in
        let shakes : Action os.World (Session n) = shake_hands devices n env cfg set in
        then-Keeps see binds (connects >> (looks >>= λ a. shakes)) unseen.bind (
          then-Keeps see connects (looks >>= λ a. shakes) (unseen.connect cfg.endpoint)
            (and_then-Keeps see looks (λ a. shakes) (λ w. refl) (λ a w. unseen.attempts w)))

    open_session-Stops :
        {X : Type 0} (see : os.World → X)
        → Unseen see
        → (set : Settings)
        → ((w : os.World) → Fails (handshake n set.private set.server_pub (devices.attempts w).1))
        → Stops see (open_session devices n env cfg set)
    unfolding open_session
    open_session-Stops see unseen set failed =
        let binds : Action os.World (Unit {0}) = λ w. at "bind client UDP" (devices.bind_any w) in
        let connects : Action os.World (Unit {0}) =
          λ w. at "connect to server endpoint" (devices.connect cfg.endpoint w) in
        let looks : Action os.World SocketAddr = λ w. (w, devices.local_addr w) in
        let shakes : Action os.World (Session n) = shake_hands devices n env cfg set in
        Stops-later see binds (λ done. connects >> (looks >>= λ a. shakes)) unseen.bind
          (λ done.
            Stops-later see connects (λ done. looks >>= λ a. shakes) (unseen.connect cfg.endpoint)
              (λ done'.
                Stops-later see looks (λ a. shakes) (λ w. refl)
                  (λ a w. (unseen.attempts w, failed w))))

    -- As long as the handshake does not succeed, whatever else fails, the client ends with an error and
    -- has changed nothing of the host but what a socket does: it has made no device, no route, no rule
    -- and no file.
    pub run-Stops :
        {X : Type 0} (see : os.World → X) (ons : List Bool) (now later : Clock)
        → Unseen see
        → ((set : Settings) (w : os.World)
            → Fails (handshake n set.private set.server_pub (devices.attempts w).1))
        → (w : os.World)
        → let r = run devices n env cfg ons now later w in (see r.0 ≡ see w) × Fails r.1
    unfolding run set_up
    run-Stops see ons now later unseen failed =
        let reads : Action os.World Settings = λ w. (w, settings env cfg) in
        let opens : Settings → Action os.World (Session n) = open_session devices n env cfg in
        let tunnels : Settings → Session n → Action os.World (Up n) =
          open_tunnel devices n env cfg now later in
        Stops-first see (reads >>= λ set. opens set >>= tunnels set) (used_up devices n env cfg ons)
          (Stops-later see reads (λ set. opens set >>= tunnels set) (λ w. refl)
            (λ set.
              Stops-first see (opens set) (tunnels set)
                (open_session-Stops see unseen set (failed set))))

module _ {os : Os} (laws : TidyHost os) (server : ℕ) where
  -- What the client may leave behind: the ways of the two halves and to the server, and the jumps.
  abbrev pub pins : os.World → Option (List Arg) × Option (List Arg) × Option (List Arg) × ℕ
  pins w = (
    laws.host.routes w low_half,
    laws.host.routes w high_half,
    laws.host.routes w (addr server),
    laws.host.filter.jumps w,
  )

  -- None of them is there.
  abbrev pub Unmarked : os.World → Type 0
  Unmarked w = pins w ≡ (none, none, none, 0)

  Clean-Unmarked :
      (before : Arg → Option (List Arg)) (w : os.World) → Clean laws server before w → Unmarked w
  Clean-Unmarked before w ((low, high, host, others), jumps) =
      ap
        (λ x. (
          x,
          laws.host.routes w high_half,
          laws.host.routes w (addr server),
          laws.host.filter.jumps w,
        ))
        low
      ∙ ap (λ x. (none, x, laws.host.routes w (addr server), laws.host.filter.jumps w)) high
      ∙ ap (λ x. (none, none, x, laws.host.filter.jumps w)) host
      ∙ ap (λ (x : ℕ). (none, none, none, x)) jumps

  Unmarked-Clean : (w : os.World) → Unmarked w → Clean laws server (laws.host.routes w) w
  Unmarked-Clean w h =
      ((ap (λ p. p.0) h, ap (λ p. p.1) h, ap (λ p. p.2) h, λ s a b c. refl), ap (λ p. p.3) h)

  Keeps-Unmarked : {A : Type 0} (m : Action os.World A) → Keeps pins m → Preserves Unmarked m
  Keeps-Unmarked m kept w before = kept w ∙ before

  module _ (devices : Devices os) (n : Noise) (env : Env) (cfg : ClientConfig) where
    -- The end of a run from its routes on.
    finished : List Bool → ClientRoutes → Action os.World (Unit {0})
    finished ons routes w =
        let (st, w') = switch_all os cfg.endpoint cfg.kill_switch ons (routes, w) in
        (teardown_all os st w', ok tt)

    finished-Unmarked :
        (ons : List Bool) (before : Arg → Option (List Arg)) (r : os.World × Result ClientRoutes)
        → Ends laws server before cfg.endpoint cfg.kill_switch ons r
        → Unmarked (and_then (finished ons) r).0
    unfolding finished
    finished-Unmarked ons before (w, err e) clean = Clean-Unmarked before w clean
    finished-Unmarked ons before (w, ok st) clean =
        let (st', w') = switch_all os cfg.endpoint cfg.kill_switch ons (st, w) in
        Clean-Unmarked before (teardown_all os st' w') clean

    install-Unmarked :
        (ons : List Bool) (tun_name : Text) (w : os.World)
        → cfg.endpoint.ip ≡ v4 server
        → Unmarked w
        → Unmarked
            (and_then
              (finished ons)
              (Routes.install os cfg.endpoint tun_name (route_opts devices n env cfg) w)).0
    install-Unmarked ons tun_name w is_v4 before =
        let opts = route_opts devices n env cfg in
        let ends : IpAddr → Type 0 = λ ip.
          let endpoint : SocketAddr = record { ip = ip; port = cfg.endpoint.port } in
          Ends laws server (laws.host.routes w) endpoint cfg.kill_switch ons
            (Routes.install os endpoint tun_name opts w) in
        let clean : ends (v4 server) =
          drop-Clean laws server (laws.host.routes w) cfg.endpoint.port tun_name opts
            cfg.kill_switch ons w (Unmarked-Clean w before) in
        finished-Unmarked ons (laws.host.routes w) (Routes.install os cfg.endpoint tun_name opts w)
          (subst ends (sym is_v4) clean)

    open_tunnel-Unmarked :
        (ons : List Bool) (now later : Clock) (set : Settings) (session : Session n)
        → cfg.endpoint.ip ≡ v4 server
        → ((c : Configuration) → Keeps pins (devices.create_as_async c))
        → Preserves Unmarked
            (open_tunnel devices n env cfg now later set session >>= used_up devices n env cfg ons)
    unfolding open_tunnel finished create
    open_tunnel-Unmarked ons now later set session is_v4 created w before =
        let made : Action os.World (Result Text) =
          create devices "soulvpn" set.addr set.prefix cfg.mtu in
        let opts = route_opts devices n env cfg in
        let name_of : Result Text → Text = unwrap_or (codes "soulvpn") in
        let installs : Result Text → Action os.World ClientRoutes =
          λ tun. Routes.install os cfg.endpoint (name_of tun) opts in
        let up_of : Result Text → ClientRoutes → Up n = λ tun routes. record {
          set = set;
          tun_name = name_of tun;
          shared = shared_of devices n env cfg now later (name_of tun) session;
          routes = routes;
        } in
        let next : Result Text → Action os.World (Up n) =
          λ tun. installs tun >>= λ routes. pure (up_of tun routes) in
        let uses = used_up devices n env cfg ons in
        subst (λ r. Unmarked r.0) (sym (and_then_assoc (made w) next uses))
          (and_then-Preserves Unmarked made (λ tun. next tun >>= uses)
            (Keeps-Unmarked made (λ w'. created _ w'))
            (λ tun w' before'.
              subst (λ r. Unmarked r.0) (sym (and_then-pure (installs tun w') (up_of tun) uses))
                (install-Unmarked ons (name_of tun) w' is_v4 before'))
            w before)

    -- A run of the client with a server's IPv4 address, from its start to its end, on a host where the
    -- deletion of a route or a jump that is there succeeds. Whatever else of its calls fails, and however
    -- often it is switched on and off, it ends with none of its IPv4 routes and no jump to its chain, as it
    -- began. The threads of the hook are done before the routes are dropped, and what opens sockets and
    -- devices must leave those places alone.
    pub run-Unmarked :
        (ons : List Bool) (now later : Clock)
        → cfg.endpoint.ip ≡ v4 server
        → Unseen devices pins
        → ((c : Configuration) → Keeps pins (devices.create_as_async c))
        → (w : os.World) → Unmarked w
        → Unmarked (run devices n env cfg ons now later w).0
    unfolding run set_up
    run-Unmarked ons now later is_v4 unseen created w before =
        let reads : Action os.World Settings = λ w. (w, settings env cfg) in
        let opens : Settings → Action os.World (Session n) = open_session devices n env cfg in
        let tunnels : Settings → Session n → Action os.World (Up n) =
          open_tunnel devices n env cfg now later in
        let uses = used_up devices n env cfg ons in
        subst (λ r. Unmarked r.0)
          (sym (and_then_assoc (reads w) (λ set. opens set >>= tunnels set) uses))
          (and_then-Preserves Unmarked reads (λ set. (opens set >>= tunnels set) >>= uses)
            (λ w' h. h)
            (λ set w' h.
              subst (λ r. Unmarked r.0) (sym (and_then_assoc (opens set w') (tunnels set) uses))
                (and_then-Preserves Unmarked (opens set) (λ session. tunnels set session >>= uses)
                  (Keeps-Unmarked (opens set)
                    (open_session-Keeps devices n env cfg pins unseen set))
                  (λ session. open_tunnel-Unmarked ons now later set session is_v4 created) w' h))
            w before)
