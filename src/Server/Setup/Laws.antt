-- ===== src/Server/Setup/Laws.antt =====
-- The server's NAT from its start to its end.
use soulvpn.Base.{
  Bool, ℕ, ◌<◌, ◌≡◌, refl, sym, subst, ap, ◌∙◌, true, Option, some, List, Result, ok, err, codes,
  SocketAddr, bind-ok,
}
use soulvpn.Config.Chars.{Text}
use soulvpn.Config.{Env, parse_cidr, parse_mode, network_addr, server_private_key}
use soulvpn.Config.Toml.{ServerConfig}
use soulvpn.Config.Bounds.{parse_cidr_lem}
use soulvpn.Config.Show.{show_cidr}
use soulvpn.Config.Show.Laws.{parse_cidr-show_cidr}
use soulvpn.Route.Os.{Os, Arg, Action, ◌>>=◌, pure}
use soulvpn.Route.Os.Laws.{and_then-ok, and_then-pure-ok, and_then-Keeps, then-Keeps, Keeps}
use soulvpn.Route.Nat
use soulvpn.Route.Nat.{NatGuard, ip_forward, masquerade, nat_command, remove}
use soulvpn.Route.Nat.Laws.{NatLaws, remove-setup}
use soulvpn.Crypto.Noise.{Noise}
use soulvpn.TunDev.{ipv4_network, prefix_to_netmask}
use soulvpn.TunDev.Laws.{ipv4_network_lem, ipv4_network_lt}
use soulvpn.Devices.{Devices, Configuration, at, create, unwrap_or}
use soulvpn.Stats.{Clock}
use soulvpn.Server.Settings.{Settings, decode_peers, settings}
use soulvpn.Server.Setup.{
  Up, cidr_of, guard_nat, tables_of, open_devices, set_up, drop_nat, shut_down,
}

-- Forwarding, and what its file shows.
abbrev pub setting : {os : Os} → NatLaws os → os.World → Option Text × Bool
setting {os} laws w = (os.read w ip_forward, laws.forwarding w)

-- What is relied on of opening a socket and a TUN device: forwarding, its file and the NAT rules stay as
-- they are.
pub record NatApart {os : Os} (devices : Devices os) (laws : NatLaws os) : Type 0 where
  pub forward-bind : (addr : SocketAddr) → Keeps (setting laws) (devices.bind addr)
  pub forward-create : (c : Configuration) → Keeps (setting laws) (devices.create_as_async c)
  pub rules-bind :
      (addr : SocketAddr) (rule : List Arg) → Keeps (λ w. laws.rules w rule) (devices.bind addr)
  pub rules-create :
      (c : Configuration) (rule : List Arg)
      → Keeps (λ w. laws.rules w rule) (devices.create_as_async c)

abbrev net_of : Result Settings → ℕ × ℕ
net_of (ok set) = (set.addr, set.prefix)
net_of (err e) = (0, 0)

settings_cidr :
    (env : Env) (cfg : ServerConfig) (set : Settings)
    → settings env cfg ≡ ok set
    → parse_cidr cfg.address ≡ ok (set.addr, set.prefix)
unfolding settings
settings_cidr env cfg set h =
    let (private, key, h1) = bind-ok (server_private_key env cfg) _ set h in
    let (net, address, h2) = bind-ok (parse_cidr cfg.address) _ set h1 in
    let (mode, bits, h3) = bind-ok (parse_mode cfg.control_mode) _ set h2 in
    let (peers, decoded, h4) = bind-ok (decode_peers env cfg.peers) _ set h3 in
    address ∙ ap (λ r. ok (net_of r)) h4

-- The text that NAT is set up with is the network of the configuration.
cidr_of-parse_cidr :
    (env : Env) (cfg : ServerConfig) (set : Settings)
    → settings env cfg ≡ ok set
    → (parse_cidr cfg.address ≡ ok (set.addr, set.prefix))
      × (parse_cidr (show_cidr (ipv4_network set.addr set.prefix) set.prefix)
          ≡ ok (network_addr set.addr set.prefix, set.prefix))
cidr_of-parse_cidr env cfg set h =
    let address = settings_cidr env cfg set h in
    let (small, short) = parse_cidr_lem cfg.address set.addr set.prefix address in
    let net = ipv4_network set.addr set.prefix in
    (
      address,
      parse_cidr-show_cidr net set.prefix (ipv4_network_lt set.addr set.prefix small short) short
          ∙ ap (λ (ip : ℕ). ok (ip, set.prefix))
              (ipv4_network_lem set.addr set.prefix small short).0,
    )

module _ {os : Os} (devices : Devices os) (laws : NatLaws os) (apart : NatApart devices laws) where
  open_devices-Keeps :
      {X : Type 0} (see : os.World → X) (env : Env) (n : Noise) (cfg : ServerConfig)
      (set : Settings)
      → ((addr : SocketAddr) → Keeps see (devices.bind addr))
      → ((c : Configuration) → Keeps see (devices.create_as_async c))
      → Keeps see (open_devices devices n env cfg set)
  unfolding create
  open_devices-Keeps see env n cfg set bound created =
      let opens : Action os.World (Unit {0}) = λ w. at "bind" (devices.bind cfg.listen w) in
      let makes : Action os.World (Result Text) =
        create devices "soulvpn0" set.addr set.prefix cfg.mtu in
      let ends : Result Text → Action os.World Text =
        λ tun_name. pure (unwrap_or (codes "soulvpn0") tun_name) in
      let made : Keeps see makes = λ w.
        created
          (record {
            tun_name = codes "soulvpn0";
            address = set.addr;
            netmask = prefix_to_netmask set.prefix;
            mtu = cfg.mtu;
          })
          w in
      then-Keeps see opens (makes >>= ends) (λ w. bound cfg.listen w)
        (and_then-Keeps see makes ends made (λ tun_name w. refl))

  -- The guard of a server with `nat`.
  guard_nat_lem :
      (n : Noise) (env : Env) (cfg : ServerConfig) (set : Settings) (v w' : os.World)
      (guarding : Option NatGuard)
      → cfg.nat ≡ true
      → guard_nat devices n env cfg set v ≡ (w', ok guarding)
      → (guard : NatGuard) × (guarding ≡ some guard)
        × (Nat.setup os (cidr_of devices n env cfg set) v ≡ (w', ok guard))
  unfolding guard_nat
  guard_nat_lem n env cfg set v w' guarding nat h =
      let makes : Action os.World NatGuard = Nat.setup os (cidr_of devices n env cfg set) in
      let run : (makes >>= λ made. pure (some made)) v ≡ (w', ok guarding) = simp nat at h in
      let (guard, made, same) = and_then-pure-ok (makes v) some w' guarding run in
      (guard, sym same, made)

  -- What a guard of a server means: the rule is for the tunnel's network and there, forwarding is on, and
  -- the end gives both back, the rule unless its deletion fails.
  abbrev pub Held : {n : Noise} → ServerConfig → os.World → os.World → Up n → NatGuard → Type 0
  Held cfg w w' up guard =
      let cidr = show_cidr (ipv4_network up.set.addr up.set.prefix) up.set.prefix in
      let rule = masquerade cidr guard.egress in
      let ended = shut_down os up w' in
      (up.nat_guard ≡ some guard)
      × (parse_cidr cfg.address ≡ ok (up.set.addr, up.set.prefix))
      × (parse_cidr cidr ≡ ok (network_addr up.set.addr up.set.prefix, up.set.prefix))
      × (laws.forwarding w' ≡ true)
      × (0 < laws.rules w' rule)
      × (laws.forwarding ended ≡ laws.forwarding w)
      × ((guard.rule_added ≡ true → (os.exec w' (nat_command "-D" rule)).1 ≡ some true)
          → laws.rules ended rule ≡ laws.rules w rule)

  guarded-Held :
      (n : Noise) (env : Env) (cfg : ServerConfig) (prev : Text) (w v w' : os.World) (up : Up n)
      → cfg.nat ≡ true
      → settings env cfg ≡ ok up.set
      → guard_nat devices n env cfg up.set v ≡ (w', ok up.nat_guard)
      → os.read v ip_forward ≡ some prev
      → laws.forwarding v ≡ laws.forwarding w
      → ((rule : List Arg) → laws.rules v rule ≡ laws.rules w rule)
      → ((v' : os.World) → (os.write v' ip_forward prev).1 ≡ true)
      → (guard : NatGuard) × Held cfg w w' up guard
  unfolding shut_down
  guarded-Held n env cfg prev w v w' up nat read whole was forward rules writable =
      let (guard, held, making) = guard_nat_lem n env cfg up.set v w' up.nat_guard nat whole in
      let cidr = cidr_of devices n env cfg up.set in
      let (on, present, off, fewer) = remove-setup laws cidr prev v w' guard making was writable in
      let (address, text) = cidr_of-parse_cidr env cfg up.set read in
      let end : shut_down os up w' ≡ remove os guard w' = ap (λ g. drop_nat os g w') held in
      (
        guard,
        (
          held,
          address,
          text,
          on,
          present,
          ap laws.forwarding end ∙ off ∙ forward,
          λ works.
              ap (λ u. laws.rules u (masquerade cidr guard.egress)) end
              ∙ fewer works
              ∙ rules (masquerade cidr guard.egress),
        ),
      )

  -- A server with `nat` that has come up holds forwarding on and one rule, for a text that reads as the
  -- network of its configuration. After its end forwarding is as it was before its start; so is the rule,
  -- unless it was added and the command that deletes it fails. The setting must be readable, and writable
  -- again.
  pub shut_down-set_up :
      (n : Noise) (env : Env) (cfg : ServerConfig) (now : Clock) (prev : Text) (w w' : os.World)
      (up : Up n)
      → cfg.nat ≡ true
      → set_up devices n env cfg now w ≡ (w', ok up)
      → os.read w ip_forward ≡ some prev
      → ((v : os.World) → (os.write v ip_forward prev).1 ≡ true)
      → (guard : NatGuard) × Held cfg w w' up guard
  unfolding set_up
  shut_down-set_up n env cfg now prev w w' up nat h was writable =
      let first : Action os.World Settings = λ w. (w, settings env cfg) in
      let up_of : Settings → Text → Option NatGuard → Up n = λ set tun_name guarding. record {
        set = set;
        tun_name = tun_name;
        nat_guard = guarding;
        tables = tables_of devices n env cfg now set tun_name;
      } in
      let guards : Settings → Text → Action os.World (Up n) = λ set tun_name.
        guard_nat devices n env cfg set >>= λ guarding. pure (up_of set tun_name guarding) in
      let opens : Settings → Action os.World (Up n) =
        λ set. open_devices devices n env cfg set >>= guards set in
      let (set, read, h1) = and_then-ok (first w) opens w' up h in
      let opened = open_devices devices n env cfg set w in
      let (tun_name, done, h2) = and_then-ok opened (guards set) w' up h1 in
      let (guarding, whole, same) =
        and_then-pure-ok (guard_nat devices n env cfg set opened.0) (up_of set tun_name) w' up h2 in
      let forward =
        open_devices-Keeps (setting laws) env n cfg set apart.forward-bind apart.forward-create w in
      let rules : (rule : List Arg) → laws.rules opened.0 rule ≡ laws.rules w rule = λ rule.
        open_devices-Keeps (λ w. laws.rules w rule) env n cfg set
          (λ addr. apart.rules-bind addr rule) (λ c. apart.rules-create c rule) w in
      let goal : (guard : NatGuard) × Held cfg w w' (up_of set tun_name guarding) guard =
        guarded-Held n env cfg prev w opened.0 w' (up_of set tun_name guarding) nat read whole
          (ap (λ p. p.0) forward ∙ was) (ap (λ p. p.1) forward) rules writable in
      subst (λ (u : Up n). (guard : NatGuard) × Held cfg w w' u guard) same goal
