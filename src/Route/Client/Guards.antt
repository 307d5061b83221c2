-- ===== src/Route/Client/Guards.antt =====
-- What the guards of `ClientRoutes` do to its routes and to the jumps, when they are made and dropped.
use soulvpn.Base.{
  ℕ, ◌≡◌, refl, ap, ◌∙◌, Bool, true, false, Option, none, some, List, [], ◌∷◌, Result, ok, err, ◌-◌,
}
use soulvpn.Config.Chars.{Text}
use soulvpn.Route.Os.{Os, ok_or_none}
use soulvpn.Route.Dns.{DnsGuard}
use soulvpn.Route.Dns
use soulvpn.Route.Ipv6.{Ipv6Guard}
use soulvpn.Route.Ipv6
use soulvpn.Route.KillSwitch.{KillSwitch}
use soulvpn.Route.KillSwitch
use soulvpn.Route.KillSwitch.Rules.{armed}
use soulvpn.Route.KillSwitch.Jumps.{install-Arms, jumps-remove}
use soulvpn.Route.Client.{
  drop_kill_switch, drop_ipv6, drop_dns, guard_ipv6, guard_dns, guard_egress,
}
use soulvpn.Route.Client.Frame.{
  FilesApart, CommandsApart, six, dns-install-Keeps, dns-restore_lem, ipv6-enable-Keeps,
  ipv6-remove_lem, kill_switch-install-Keeps, kill_switch-remove_lem,
}
use soulvpn.Route.Client.Laws.{TidyHost, is_jumped}

module _ (os : Os) {X : Type 0} (see : os.World → X) where
  pub drop_ipv6_lem :
      CommandsApart os see (six os see)
      → (six : Option Ipv6Guard) (w : os.World) → see (drop_ipv6 os six w) ≡ see w
  drop_ipv6_lem apart none w = refl
  drop_ipv6_lem apart (some block) w = ipv6-remove_lem os see apart block w

  pub drop_dns_lem :
      FilesApart os see → (dns : Option DnsGuard) (w : os.World) → see (drop_dns os dns w) ≡ see w
  drop_dns_lem apart none w = refl
  drop_dns_lem apart (some dns) w = dns-restore_lem os see apart dns w

  pub seen-ok_or_none :
      {G : Type 0} (r : os.World × Result G) (w : os.World)
      → see r.0 ≡ see w
      → see (ok_or_none os r).0 ≡ see w
  seen-ok_or_none (w', ok g) w h = h
  seen-ok_or_none (w', err e) w h = h

  pub guard_ipv6_lem :
      CommandsApart os see (six os see)
      → (wanted : Bool) (w : os.World) → see (guard_ipv6 os wanted w).0 ≡ see w
  guard_ipv6_lem apart true w =
      seen-ok_or_none (Ipv6.enable os w) w (ipv6-enable-Keeps os see apart w)
  guard_ipv6_lem apart false w = refl

  pub guard_dns_lem :
      FilesApart os see
      → (servers : List Text) (w : os.World) → see (guard_dns os servers w).0 ≡ see w
  guard_dns_lem apart [] w = refl
  guard_dns_lem apart (s ∷ servers) w =
      seen-ok_or_none (Dns.install os (s ∷ servers) w) w
        (dns-install-Keeps os see apart (s ∷ servers) w)

module _ {os : Os} (laws : TidyHost os) where
  pub drop_kill_switch_lem :
      (ks : Option KillSwitch) (w : os.World)
      → laws.host.filter.jumps w ≡ is_jumped ks
      → let w' = drop_kill_switch os ks w in
        (laws.host.routes w' ≡ laws.host.routes w) × (laws.host.filter.jumps w' ≡ 0)
  drop_kill_switch_lem none w jumps = (refl, jumps)
  drop_kill_switch_lem (some ks) w jumps = (
    kill_switch-remove_lem os laws.host.routes laws.host.routes-iptables w,
    jumps-remove laws.host.filter w (laws.delete-succeeds w) ∙ ap (λ (n : ℕ). n - 1) jumps,
  )

  pub jumps-ok_or_none :
      (r : os.World × Result KillSwitch)
      → laws.host.filter.jumps r.0 ≡ armed r.1
      → let s = ok_or_none os r in laws.host.filter.jumps s.0 ≡ is_jumped s.1
  jumps-ok_or_none (w, ok ks) h = h
  jumps-ok_or_none (w, err e) h = h

  pub jumps-six : CommandsApart os laws.host.filter.jumps (six os laws.host.filter.jumps)
  jumps-six w rest = laws.host.jumps-ip w _

  pub arm_lem :
      (server port : ℕ) (tun : Text) (w : os.World)
      → laws.host.filter.jumps w ≡ 0
      → let s = ok_or_none os (KillSwitch.install os server port tun w) in
        (laws.host.routes s.0 ≡ laws.host.routes w) × (laws.host.filter.jumps s.0 ≡ is_jumped s.1)
  arm_lem server port tun w zero = (
    seen-ok_or_none os laws.host.routes (KillSwitch.install os server port tun w) w
        (kill_switch-install-Keeps os laws.host.routes laws.host.routes-iptables server port tun w),
    jumps-ok_or_none (KillSwitch.install os server port tun w)
        (install-Arms laws.host.filter server port tun w zero),
  )

  pub guard_egress_lem :
      (wanted : Bool) (server port : ℕ) (tun : Text) (w : os.World)
      → laws.host.filter.jumps w ≡ 0
      → let s = guard_egress os wanted server port tun w in
        (laws.host.routes s.0 ≡ laws.host.routes w) × (laws.host.filter.jumps s.0 ≡ is_jumped s.1)
  guard_egress_lem true server port tun w zero = arm_lem server port tun w zero
  guard_egress_lem false server port tun w zero = (refl, zero)
