-- ===== src/Route/Client.antt =====
-- src/route.rs, `ClientRoutes` (lines 13-208).
pub mod Frame
pub mod Laws
pub mod Steps
pub mod Guards
pub mod Owned
use soulvpn.Base.{
  ℕ, Bool, true, false, ◌&&◌, Option, none, some, List, [], ◌∷◌, if◌then◌else◌, Result, ok, err,
  with_context, IpAddr, v4, v6, SocketAddr,
}
use soulvpn.Config.Chars.{Text}
use soulvpn.Stats.{Clock, RuntimeStats, set_enabled}
use soulvpn.Route.Os.{
  Os, Arg, word, addr, number, name, Action, ◌>>=◌, ◌>>◌, pure, run, default_route, ok_or_none,
}
use soulvpn.Route.KillSwitch
use soulvpn.Route.KillSwitch.{KillSwitch}
use soulvpn.Route.Ipv6
use soulvpn.Route.Ipv6.{Ipv6Guard}
use soulvpn.Route.Dns
use soulvpn.Route.Dns.{DnsGuard}

pub record ClientRoutes : Type 0 where
  pub server_host : Option ℕ
  pub via_gateway : Option ℕ
  pub via_dev : Option Text
  pub redirect_all : Bool
  pub tun_name : Text
  pub kill_switch : Option KillSwitch
  pub ipv6 : Option Ipv6Guard
  pub dns : Option DnsGuard

pub record ClientRouteOpts : Type 0 where
  pub redirect_all : Bool
  pub kill_switch : Bool
  pub disable_ipv6 : Bool
  pub dns : List Text

-- A route: its destination and the way there.
abbrev pub low_half : Arg
low_half = word "0.0.0.0/1"

abbrev pub high_half : Arg
high_half = word "128.0.0.0/1"

abbrev pub through : Text → List Arg
through tun = word "dev" ∷ name tun ∷ []

abbrev pub via : ℕ → Text → List Arg
via gateway dev = word "via" ∷ addr gateway ∷ word "dev" ∷ name dev ∷ []

abbrev pub replace : Arg → List Arg → List Arg
replace dest way = word "ip" ∷ word "route" ∷ word "replace" ∷ dest ∷ way

abbrev pub del : Arg → List Arg → List Arg
del dest way = word "ip" ∷ word "route" ∷ word "del" ∷ dest ∷ way

abbrev pub is_none : {A : Type 0} → Option A → Bool
is_none none = true
is_none (some a) = false

abbrev pub fresh : Text → ClientRouteOpts → ClientRoutes
fresh tun opts = record {
  server_host = none;
  via_gateway = none;
  via_dev = none;
  redirect_all = opts.redirect_all;
  tun_name = tun;
  kill_switch = none;
  ipv6 = none;
  dns = none;
}

module _ (os : Os) where
  abbrev pub drop_kill_switch : Option KillSwitch → os.World → os.World
  drop_kill_switch none w = w
  drop_kill_switch (some ks) w = KillSwitch.remove os w

  abbrev pub drop_ipv6 : Option Ipv6Guard → os.World → os.World
  drop_ipv6 none w = w
  drop_ipv6 (some six) w = Ipv6.remove os six w

  abbrev pub drop_dns : Option DnsGuard → os.World → os.World
  drop_dns none w = w
  drop_dns (some dns) w = (Dns.restore os dns w).1

  abbrev pub remove_split : Bool → Text → os.World → os.World
  remove_split redirect_all tun w =
      if redirect_all
      then (os.exec (os.exec w (del low_half (through tun))).0 (del high_half (through tun))).0
      else w

  abbrev pub remove_host : Option ℕ → Option ℕ → Option Text → os.World → os.World
  remove_host (some host) (some gw) (some dev) w = (os.exec w (del (addr host) (via gw dev))).0
  remove_host (some host) (some gw) none w = w
  remove_host (some host) none dev w = w
  remove_host none gw dev w = w

  -- What is left of the state is of no use, since this runs only when it is dropped.
  unfoldable pub teardown_all : ClientRoutes → os.World → os.World
  teardown_all st w = remove_host st.server_host st.via_gateway st.via_dev (
      remove_split st.redirect_all st.tun_name
        (drop_dns st.dns (drop_ipv6 st.ipv6 (drop_kill_switch st.kill_switch w))))

  unfoldable pub teardown : ClientRoutes → os.World → ClientRoutes × os.World
  teardown st w = (
    record st { kill_switch = none },
    remove_split st.redirect_all st.tun_name (drop_kill_switch st.kill_switch w),
  )

  abbrev pub install_split : Bool → Text → Action os.World (Unit {0})
  install_split redirect_all tun =
      if redirect_all
      then (run os (replace low_half (through tun)) >> run os (replace high_half (through tun)))
      else pure tt

  unfoldable pub reenable : ClientRoutes → Action os.World (Unit {0})
  reenable st = install_split st.redirect_all st.tun_name

  -- Lines 160-165.
  abbrev pub rearm :
      ClientRoutes → IpAddr → ℕ → Option Text → os.World → os.World × Option KillSwitch
  rearm st (v4 server) port (some dev) w =
      ok_or_none os (KillSwitch.install os server port st.tun_name w)
  rearm st (v4 server) port none w = (w, none)
  rearm st (v6 server) port dev w = (w, none)

  abbrev pub rearmed :
      ClientRoutes → os.World × Option KillSwitch → ClientRoutes × os.World × Result (Unit {0})
  rearmed st (w, ks) = (record st { kill_switch = ks }, w, ok tt)

  abbrev pub and_rearm :
      ClientRoutes
      → SocketAddr
      → Bool
      → os.World × Result (Unit {0})
      → ClientRoutes × os.World × Result (Unit {0})
  and_rearm st endpoint wanted (w, err e) = (st, w, err e)
  and_rearm st endpoint wanted (w, ok done) =
      if wanted
      then rearmed st (rearm st endpoint.ip endpoint.port st.via_dev w)
      else (st, w, ok tt)

  unfoldable pub reenable_with_ks :
      ClientRoutes → SocketAddr → Bool → os.World → ClientRoutes × os.World × Result (Unit {0})
  reenable_with_ks st endpoint want_kill_switch w =
      and_rearm st endpoint (want_kill_switch && (st.redirect_all && is_none st.kill_switch))
        (reenable st w)

  -- `?` in `install`: where the call fails, the state is dropped.
  abbrev pub or_drop :
      ClientRoutes
      → Action os.World ClientRoutes
      → os.World × Result (Unit {0})
      → os.World × Result ClientRoutes
  or_drop st next (w, ok done) = next w
  or_drop st next (w, err e) = (teardown_all st w, err e)

  -- Lines 82-112: what may fail without a failure of `install`.
  abbrev pub guard_ipv6 : Bool → os.World → os.World × Option Ipv6Guard
  guard_ipv6 wanted w = if wanted then ok_or_none os (Ipv6.enable os w) else (w, none)

  abbrev pub guard_dns : List Text → os.World → os.World × Option DnsGuard
  guard_dns [] w = (w, none)
  guard_dns (server ∷ servers) w = ok_or_none os (Dns.install os (server ∷ servers) w)

  abbrev pub guard_egress : Bool → ℕ → ℕ → Text → os.World → os.World × Option KillSwitch
  guard_egress wanted server port tun w =
      if wanted then ok_or_none os (KillSwitch.install os server port tun w) else (w, none)

  abbrev pub guards : ClientRoutes → ℕ → ℕ → ClientRouteOpts → Action os.World ClientRoutes
  guards st server port opts w =
      let six = guard_ipv6 opts.disable_ipv6 w in
      let dns = guard_dns opts.dns six.0 in
      let ks = guard_egress (opts.kill_switch && opts.redirect_all) server port st.tun_name dns.0 in
      (ks.0, ok (record st { kill_switch = ks.1; ipv6 = six.1; dns = dns.1 }))

  abbrev pub install_routes :
      ℕ → ℕ → Text → ClientRouteOpts → os.World → Result (ℕ × Text) → os.World × Result ClientRoutes
  install_routes server port tun opts w (err e) = (teardown_all (fresh tun opts) w, err e)
  install_routes server port tun opts w (ok (gateway, dev)) =
      let st = record (fresh tun opts) {
        server_host = some server;
        via_gateway = some gateway;
        via_dev = some dev;
      } in
      or_drop (fresh tun opts)
        (λ w'. or_drop st (guards st server port opts) (install_split opts.redirect_all tun w'))
        (run os (replace (addr server) (via gateway dev)) w)

  abbrev pub install_at : IpAddr → ℕ → Text → ClientRouteOpts → Action os.World ClientRoutes
  install_at (v6 ip) port tun opts w = (w, ok (fresh tun opts))
  install_at (v4 server) port tun opts w =
      install_routes server port tun opts w
        (with_context "detect default route" (default_route os w))

  unfoldable pub install : SocketAddr → Text → ClientRouteOpts → Action os.World ClientRoutes
  install endpoint tun_name opts = install_at endpoint.ip endpoint.port tun_name opts

  -- What a thread of the hook of src/client.rs does to the routes, once it has the lock.
  abbrev pub switch_routes :
      SocketAddr → Bool → Bool → ClientRoutes × os.World → ClientRoutes × os.World
  switch_routes endpoint kill_switch on (st, w) =
      let (enabled, w', result) = reenable_with_ks st endpoint kill_switch w in
      if on then (enabled, w') else teardown st w

  -- The thread as a whole, which sets the flag of the statistics behind that.
  unfoldable pub switch_hook :
      SocketAddr
      → Bool
      → Bool
      → Clock
      → RuntimeStats × (ClientRoutes × os.World)
      → RuntimeStats × (ClientRoutes × os.World)
  switch_hook endpoint kill_switch on now (stats, held) =
      (set_enabled on now stats, switch_routes endpoint kill_switch on held)

  -- Threads one after the other, in the order in which they get the lock.
  abbrev pub switch_all :
      SocketAddr → Bool → List Bool → ClientRoutes × os.World → ClientRoutes × os.World
  switch_all endpoint kill_switch [] at = at
  switch_all endpoint kill_switch (on ∷ ons) at =
      switch_all endpoint kill_switch ons (switch_routes endpoint kill_switch on at)
