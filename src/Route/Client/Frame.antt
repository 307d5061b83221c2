-- ===== src/Route/Client/Frame.antt =====
-- What the guards of `ClientRoutes` leave as it is.
use soulvpn.Base.{
  ℕ, ◌≡◌, refl, ◌∙◌, true, false, List, [], ◌∷◌, ◌++◌, Result, ok, err, String, inl, inr,
  Bool-cases, Option-cases,
}
use soulvpn.Config.Chars.{Text}
use soulvpn.Route.Os.{Os, Arg, word, Action, ◌>>◌, pure, ignore, run, run_status, write_file}
use soulvpn.Route.Os.Laws.{Keeps, then-Keeps}
use soulvpn.Route.Dns.{resolv, resolv_backup, DnsGuard, resolv_body, read_file, back_up}
use soulvpn.Route.Dns
use soulvpn.Route.Ipv6
use soulvpn.Route.KillSwitch
use soulvpn.Route.KillSwitch.{
  append, append_established, new_chain, flush_chain, delete_chain, append_rule, allow_loopback,
  allow_tunnel, allow_server, allow_established, allow_established_old, reject_rest, check_jump,
  insert_jump, delete_jump, jump, unwrap_or_false, or_else, guard,
}

module _ (os : Os) {X : Type 0} (see : os.World → X) where
  -- The files are apart from what is seen, and so are the commands that begin like this.
  abbrev pub FilesApart : Type 0
  FilesApart =
      ((w : os.World) (p : String) (t : Text) → see (os.write w p t).0 ≡ see w)
      × ((w : os.World) (p : String) → see (os.remove_file w p).0 ≡ see w)

  abbrev pub CommandsApart : List Arg → Type 0
  CommandsApart start = (w : os.World) (rest : List Arg) → see (os.exec w (start ++ rest)).0 ≡ see w

  abbrev pub six : List Arg
  six = word "ip" ∷ word "-6" ∷ []

  abbrev pub iptables : List Arg
  iptables = word "iptables" ∷ []

  module _ (files : FilesApart) where
    back_up-Keeps : Keeps see (back_up os)
    back_up-Keeps w = elim (Bool-cases (os.exists w resolv)) [
      | inr missing ↦ simp missing refl
      | inl there ↦ elim (Option-cases (os.read w resolv)) [
        | inl unread ↦ simp (there, unread, read_file) refl
        | inr (content, now) ↦ elim (Bool-cases (os.exists w resolv_backup)) [
          | inl kept ↦ simp (there, now, kept, read_file) refl
          | inr gone ↦ simp (there, now, gone, read_file) (files.0 w resolv_backup content)
        ]
      ]
    ]

    pub dns-install-Keeps : (servers : List Text) → Keeps see (Dns.install os servers)
    unfolding Dns.install
    dns-install-Keeps servers =
        let rewrite : Action os.World (Unit {0}) =
          write_file os "write resolv.conf" resolv (resolv_body servers) in
        let made : Action os.World DnsGuard = pure (record { restored = false }) in
        then-Keeps see (back_up os) (rewrite >> made) back_up-Keeps
          (then-Keeps see rewrite made (λ w. files.0 w resolv (resolv_body servers)) (λ w. refl))

    pub dns-restore_lem : (dns : DnsGuard) (w : os.World) → see (Dns.restore os dns w).1 ≡ see w
    unfolding Dns.restore
    dns-restore_lem dns w = elim (Bool-cases dns.restored) [
      | inl done ↦ simp done refl
      | inr live ↦ elim (Bool-cases (os.exists w resolv_backup)) [
        | inr missing ↦ simp (live, missing) refl
        | inl there ↦ elim (Option-cases (os.read w resolv_backup)) [
          | inl unread ↦ simp (live, there, unread) (files.1 w resolv_backup)
          | inr (content, old) ↦
              simp (live, there, old)
                (files.1 (os.write w resolv content).0 resolv_backup ∙ files.0 w resolv content)
        ]
      ]
    ]

  module _ (apart : CommandsApart six) where
    pub ipv6-enable-Keeps : Keeps see (Ipv6.enable os)
    unfolding Ipv6.enable
    ipv6-enable-Keeps =
        let made : Action os.World Ipv6.Ipv6Guard = pure (record { active = true }) in
        then-Keeps see (run os (Ipv6.replace Ipv6.low_half))
          (run os (Ipv6.replace Ipv6.high_half) >> made) (λ w. apart w _)
          (then-Keeps see (run os (Ipv6.replace Ipv6.high_half)) made (λ w. apart w _) (λ w. refl))

    pub ipv6-remove_lem :
        (block : Ipv6.Ipv6Guard) (w : os.World) → see (Ipv6.remove os block w) ≡ see w
    unfolding Ipv6.remove
    ipv6-remove_lem block w = elim (Bool-cases block.active) [
      | inr idle ↦ simp idle refl
      | inl live ↦ simp live (apart _ _ ∙ apart w _)
    ]

  module _ (apart : CommandsApart iptables) where
    append-Keeps : (rule : List Arg) → Keeps see (append os rule)
    append-Keeps rule w = apart w _

    or_else-seen :
        (r : os.World × Result (Unit {0})) (other : Action os.World (Unit {0}))
        → Keeps see other
        → see (or_else os other r).0 ≡ see r.0
    or_else-seen (w, ok done) other next = refl
    or_else-seen (w, err e) other next = next w

    or_else-Keeps :
        (other m : Action os.World (Unit {0}))
        → Keeps see other
        → Keeps see m
        → Keeps see (λ w. or_else os other (m w))
    or_else-Keeps other m next first w = or_else-seen (m w) other next ∙ first w

    jump-Keeps : Keeps see (jump os)
    jump-Keeps w = elim (Bool-cases (unwrap_or_false (run_status os check_jump w).1)) [
      | inl there ↦ simp there (apart w _)
      | inr missing ↦ simp missing (apart _ _ ∙ apart w _)
    ]

    pub kill_switch-install-Keeps :
        (server port : ℕ) (tun : Text) → Keeps see (KillSwitch.install os server port tun)
    unfolding KillSwitch.install
    kill_switch-install-Keeps server port tun =
        let made : Action os.World KillSwitch.KillSwitch = pure guard in
        let closed = append os reject_rest >> (jump os >> made) in
        let replies = append_established os >> closed in
        let to_server = append os (allow_server server port) >> replies in
        let to_tunnel = append os (allow_tunnel tun) >> to_server in
        let local = append os allow_loopback >> to_tunnel in
        let emptied = ignore (run os flush_chain) >> local in
        let first = append os allow_established in
        let other = append os allow_established_old in
        then-Keeps see (ignore (run os new_chain)) emptied (λ w. apart w _)
          (then-Keeps see (ignore (run os flush_chain)) local (λ w. apart w _)
            (then-Keeps see (append os allow_loopback) to_tunnel (append-Keeps allow_loopback) (
              then-Keeps see (append os (allow_tunnel tun)) to_server
                (append-Keeps (allow_tunnel tun))
                (then-Keeps see (append os (allow_server server port)) replies
                  (append-Keeps (allow_server server port))
                  (then-Keeps see (append_established os) closed
                    (or_else-Keeps other first (append-Keeps allow_established_old)
                      (append-Keeps allow_established))
                    (then-Keeps see (append os reject_rest) (jump os >> made)
                      (append-Keeps reject_rest)
                      (then-Keeps see (jump os) made jump-Keeps (λ w. refl))))))))

    pub kill_switch-remove_lem : (w : os.World) → see (KillSwitch.remove os w) ≡ see w
    unfolding KillSwitch.remove
    kill_switch-remove_lem w = apart _ _ ∙ apart _ _ ∙ apart w _
