-- ===== src/Route/Client/Owned.antt =====
-- What `ClientRoutes` owns of the host: it stays known through every operation, and dropping the state
-- gives it all back.
use soulvpn.Base.{
  ℕ, ◌≡◌, refl, sym, ap, ◌∙◌, subst, Bool, true, false, ◌&&◌, Option, none, some, List, [], ◌∷◌,
  Result, ok, err, Error, with_context, IpAddr, v4, v6, SocketAddr, inl,
}
use soulvpn.Config.Chars.{Text}
use soulvpn.Route.Os.{Os, addr, Action, run, default_route}
use soulvpn.Route.KillSwitch.{KillSwitch}
use soulvpn.Route.Client.{
  ClientRoutes, ClientRouteOpts, low_half, high_half, via, replace, is_none, fresh,
  drop_kill_switch, drop_ipv6, drop_dns, remove_split, teardown_all, teardown, install_split,
  reenable, rearm, and_rearm, reenable_with_ks, or_drop, guard_ipv6, guard_dns, guards,
  install_routes, install, switch_routes, switch_all,
}
use soulvpn.Route.Client.Laws.{Table, TidyHost, is_jumped, Routed, Unrouted}
use soulvpn.Route.Client.Steps.{
  remove_split-Kept, remove_host-Unrouted, install_split-At, replace_host, jumps-remove_split,
  jumps-remove_host, jumps-install_split,
}
use soulvpn.Route.Client.Guards.{
  drop_kill_switch_lem, drop_ipv6_lem, drop_dns_lem, guard_ipv6_lem, guard_dns_lem, jumps-six,
  arm_lem, guard_egress_lem,
}

unarmed : (a b : Bool) (ks : Option KillSwitch) → (a && (b && is_none ks)) ≡ true → ks ≡ none
unarmed true true none h = refl
unarmed true true (some ks) h = cc
unarmed true false ks h = cc
unarmed false b ks h = cc

module _ {os : Os} (laws : TidyHost os) where
  module _ (server : ℕ) (before : Table) where
    -- The state stands for all that is there.
    abbrev pub Owned : ClientRoutes → os.World → Type 0
    Owned st w =
        Routed server before st (laws.host.routes w)
        × (laws.host.filter.jumps w ≡ is_jumped st.kill_switch)

    abbrev pub Clean : os.World → Type 0
    Clean w = Unrouted server before (laws.host.routes w) × (laws.host.filter.jumps w ≡ 0)

    -- The state that an install gives is what it owns, and one that fails leaves nothing.
    abbrev pub Outcome : os.World × Result ClientRoutes → Type 0
    Outcome (w, ok st) = Owned st w
    Outcome (w, err e) = Clean w

    teardown_all-Clean :
        (st : ClientRoutes) (w : os.World) → Owned st w → Clean (teardown_all os st w)
    unfolding teardown_all
    teardown_all-Clean st w (routed, jumps) =
        let v1 = drop_kill_switch os st.kill_switch w in
        let v2 = drop_ipv6 os st.ipv6 v1 in
        let v3 = drop_dns os st.dns v2 in
        let v4 = remove_split os st.redirect_all st.tun_name v3 in
        let (routes1, jumps1) = drop_kill_switch_lem laws st.kill_switch w jumps in
        let routes3 =
          drop_dns_lem os laws.host.routes laws.host.routes-files st.dns v2
          ∙ drop_ipv6_lem os laws.host.routes laws.host.routes-six st.ipv6 v1
          ∙ routes1 in
        let jumps3 =
          drop_dns_lem os laws.host.filter.jumps laws.host.jumps-files st.dns v2
          ∙ drop_ipv6_lem os laws.host.filter.jumps (jumps-six laws) st.ipv6 v1
          ∙ jumps1 in
        let kept =
          remove_split-Kept laws server before st v3
            (subst (Routed server before st) (sym routes3) routed) in
        (
          remove_host-Unrouted laws server before st v4 kept,
          jumps-remove_host laws st.server_host st.via_gateway st.via_dev v4
              ∙ jumps-remove_split laws st.redirect_all st.tun_name v3
              ∙ jumps3,
        )

    pub teardown-Owned :
        (st : ClientRoutes) (w : os.World)
        → Owned st w
        → let (st', w') = teardown os st w in
          Owned st' w'
          × (laws.host.routes w' low_half ≡ none)
          × (laws.host.routes w' high_half ≡ none)
    unfolding teardown
    teardown-Owned st w (routed, jumps) =
        let v = drop_kill_switch os st.kill_switch w in
        let (same, zero) = drop_kill_switch_lem laws st.kill_switch w jumps in
        let (low, high, host, others) =
          remove_split-Kept laws server before st v
            (subst (Routed server before st) (sym same) routed) in
        (
          (
            (inl low, inl high, host, others),
            jumps-remove_split laws st.redirect_all st.tun_name v ∙ zero,
          ),
          low,
          high,
        )

    reenable-Owned : (st : ClientRoutes) (w : os.World) → Owned st w → Owned st (reenable os st w).0
    unfolding reenable
    reenable-Owned st w (routed, jumps) = (
      install_split-At laws server before st w routed,
      jumps-install_split laws st.redirect_all st.tun_name w ∙ jumps,
    )

    rearm-Owned :
        (st : ClientRoutes) (ip : IpAddr) (port : ℕ) (dev : Option Text) (w : os.World)
        → Routed server before st (laws.host.routes w)
        → laws.host.filter.jumps w ≡ 0
        → let (w', ks) = rearm os st ip port dev w in Owned (record st { kill_switch = ks }) w'
    rearm-Owned st (v4 a) port (some dev) w routed zero =
        let (same, jumps) = arm_lem laws a port st.tun_name w zero in
        (subst (Routed server before st) (sym same) routed, jumps)
    rearm-Owned st (v4 a) port none w routed zero = (routed, zero)
    rearm-Owned st (v6 a) port dev w routed zero = (routed, zero)

    and_rearm-Owned :
        (st : ClientRoutes) (endpoint : SocketAddr) (wanted : Bool)
        (r : os.World × Result (Unit {0}))
        → Owned st r.0
        → (wanted ≡ true → st.kill_switch ≡ none)
        → let (st', w', x) = and_rearm os st endpoint wanted r in Owned st' w'
    and_rearm-Owned st endpoint wanted (w, err e) owned idle = owned
    and_rearm-Owned st endpoint false (w, ok done) owned idle = owned
    and_rearm-Owned st endpoint true (w, ok done) (routed, jumps) idle =
        rearm-Owned st endpoint.ip endpoint.port st.via_dev w routed
          (jumps ∙ ap is_jumped (idle refl))

    reenable_with_ks-Owned :
        (st : ClientRoutes) (endpoint : SocketAddr) (want : Bool) (w : os.World)
        → Owned st w
        → let (st', w', r) = reenable_with_ks os st endpoint want w in Owned st' w'
    unfolding reenable_with_ks
    reenable_with_ks-Owned st endpoint want w (routed, jumps) =
        and_rearm-Owned st endpoint (want && (st.redirect_all && is_none st.kill_switch))
          (reenable os st w) (reenable-Owned st w (routed, jumps))
          (unarmed want st.redirect_all st.kill_switch)

    pub switch_routes-Owned :
        (endpoint : SocketAddr) (kill_switch on : Bool) (st : ClientRoutes) (w : os.World)
        → Owned st w
        → let (st', w') = switch_routes os endpoint kill_switch on (st, w) in Owned st' w'
    switch_routes-Owned endpoint kill_switch true st w owned =
        reenable_with_ks-Owned st endpoint kill_switch w owned
    switch_routes-Owned endpoint kill_switch false st w owned = (teardown-Owned st w owned).0

    switch_all-Owned :
        (endpoint : SocketAddr) (kill_switch : Bool) (ons : List Bool) (st : ClientRoutes)
        (w : os.World)
        → Owned st w
        → let (st', w') = switch_all os endpoint kill_switch ons (st, w) in Owned st' w'
    switch_all-Owned endpoint kill_switch [] st w owned = owned
    switch_all-Owned endpoint kill_switch (on ∷ ons) st w owned =
        let (st', w') = switch_routes os endpoint kill_switch on (st, w) in
        switch_all-Owned endpoint kill_switch ons st' w'
          (switch_routes-Owned endpoint kill_switch on st w owned)

    guards-Owned :
        (st : ClientRoutes) (port : ℕ) (opts : ClientRouteOpts) (w : os.World)
        → Routed server before st (laws.host.routes w)
        → laws.host.filter.jumps w ≡ 0
        → Outcome (guards os st server port opts w)
    guards-Owned st port opts w routed zero =
        let v1 = (guard_ipv6 os opts.disable_ipv6 w).0 in
        let v2 = (guard_dns os opts.dns v1).0 in
        let routes2 =
          guard_dns_lem os laws.host.routes laws.host.routes-files opts.dns v1
          ∙ guard_ipv6_lem os laws.host.routes laws.host.routes-six opts.disable_ipv6 w in
        let jumps2 =
          guard_dns_lem os laws.host.filter.jumps laws.host.jumps-files opts.dns v1
          ∙ guard_ipv6_lem os laws.host.filter.jumps (jumps-six laws) opts.disable_ipv6 w in
        let (same, jumps) =
          guard_egress_lem laws (opts.kill_switch && opts.redirect_all) server port st.tun_name v2
            (jumps2 ∙ zero) in
        (subst (Routed server before st) (sym (same ∙ routes2)) routed, jumps)

    or_drop-Outcome :
        (st : ClientRoutes) (next : Action os.World ClientRoutes) (r : os.World × Result (Unit {0}))
        → ((e : Error) → r.1 ≡ err e → Clean (teardown_all os st r.0))
        → (r.1 ≡ ok tt → Outcome (next r.0))
        → Outcome (or_drop os st next r)
    or_drop-Outcome st next (w, ok done) failed fine = fine refl
    or_drop-Outcome st next (w, err e) failed fine = failed e refl

    -- What is left of an install, the switching, and the drop.
    abbrev pub Ends : SocketAddr → Bool → List Bool → os.World × Result ClientRoutes → Type 0
    Ends endpoint kill_switch ons (w, err e) = Clean w
    Ends endpoint kill_switch ons (w, ok st) =
        let (st', w') = switch_all os endpoint kill_switch ons (st, w) in
        Clean (teardown_all os st' w')

    Outcome-Ends :
        (endpoint : SocketAddr) (kill_switch : Bool) (ons : List Bool)
        (r : os.World × Result ClientRoutes)
        → Outcome r
        → Ends endpoint kill_switch ons r
    Outcome-Ends endpoint kill_switch ons (w, err e) clean = clean
    Outcome-Ends endpoint kill_switch ons (w, ok st) owned =
        let (st', w') = switch_all os endpoint kill_switch ons (st, w) in
        teardown_all-Clean st' w' (switch_all-Owned endpoint kill_switch ons st w owned)

    install_routes-Outcome :
        (port : ℕ) (tun : Text) (opts : ClientRouteOpts) (w : os.World) (route : Result (ℕ × Text))
        → Clean w
        → Outcome (install_routes os server port tun opts w route)
    install_routes-Outcome port tun opts w (err e) ((low, high, free, others), zero) =
        teardown_all-Clean (fresh tun opts) w ((inl low, inl high, inl (refl, free), others), zero)
    install_routes-Outcome port tun opts w (ok (gateway, dev)) (unrouted, zero) =
        let none_yet = fresh tun opts in
        let st : ClientRoutes = record none_yet {
          server_host = some server;
          via_gateway = some gateway;
          via_dev = some dev;
        } in
        let first = run os (replace (addr server) (via gateway dev)) w in
        let zero1 = laws.host.jumps-ip w _ ∙ zero in
        let (made, failed) = replace_host laws server before none_yet w gateway dev unrouted in
        or_drop-Outcome none_yet
          (λ w'.
            or_drop os st (guards os st server port opts)
              (install_split os opts.redirect_all tun w'))
          first
          (λ e broken.
            let (low, high, free, others) = failed e broken in
            teardown_all-Clean none_yet first.0
              ((inl low, inl high, inl (refl, free), others), zero1))
          (λ fine.
            let split = install_split os opts.redirect_all tun first.0 in
            let routed = install_split-At laws server before st first.0 (made fine) in
            let zero2 = jumps-install_split laws opts.redirect_all tun first.0 ∙ zero1 in
            or_drop-Outcome st (guards os st server port opts) split
              (λ e broken. teardown_all-Clean st split.0 (routed, zero2))
              (λ done. guards-Owned st port opts split.0 routed zero2))

    pub install-Outcome :
        (port : ℕ) (tun : Text) (opts : ClientRouteOpts) (w : os.World)
        → Clean w
        → Outcome (install os (record { ip = v4 server; port = port }) tun opts w)
    unfolding install
    install-Outcome port tun opts w clean =
        install_routes-Outcome port tun opts w
          (with_context "detect default route" (default_route os w)) clean

    -- A run from a host with none of the program's routes and no jump to its chain, where the deletion of
    -- a route or a jump that is there succeeds: an install, by a server's IPv4 address and with any of the
    -- options; if it succeeds any number of `on` and `off`; and the drop. Whatever else fails, of what it
    -- reads and sets up, it ends as it began: an install that
    -- fails has left none of its IPv4 routes and no jump, after the drop there is none, and the routes
    -- to other destinations are as before.
    pub drop-Clean :
        (port : ℕ) (tun : Text) (opts : ClientRouteOpts) (kill_switch : Bool) (ons : List Bool)
        (w : os.World)
        → Clean w
        → let endpoint : SocketAddr = record { ip = v4 server; port = port } in
          Ends endpoint kill_switch ons (install os endpoint tun opts w)
    drop-Clean port tun opts kill_switch ons w clean =
        let endpoint : SocketAddr = record { ip = v4 server; port = port } in
        Outcome-Ends endpoint kill_switch ons (install os endpoint tun opts w)
          (install-Outcome port tun opts w clean)
