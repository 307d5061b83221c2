-- ===== src/Route/Nat/Laws.antt =====
-- Turning NAT on and taking it back.
use soulvpn.Base.{
  ℕ, suc, ◌+◌, ◌-◌, ◌<◌, ◌≡◌, refl, sym, ap, ◌∙◌, subst, Bool, true, false, if◌then◌else◌, some,
  List, ok, err, Error, foreign, context, with_context, codes, String, arith, inl, inr, Bool-cases,
}
use soulvpn.Config.Chars.{Text}
use soulvpn.Route.Os.{
  Os, Arg, Action, ◌>>=◌, ◌>>◌, pure, run, run_status, default_egress_dev, write_file,
}
use soulvpn.Route.Os.Laws.{and_then-ok, run-ok}
use soulvpn.Route.KillSwitch.{unwrap_or_false}
use soulvpn.Route.KillSwitch.Rules.{is_done, is_present}
use soulvpn.Route.Nat.{ip_forward, NatGuard, masquerade, nat_command, add_rule, setup, remove}

-- What is relied on of `iptables -t nat`, by what a command reports: `-C` looks for a rule, `-A` adds one
-- and `-D` removes one, and each changes nothing where it fails; and of the kernel's setting: a 1 that is
-- written turns forwarding on, and what was read makes it what it was then. Rules and setting are apart.
pub record NatLaws (os : Os) : Type 1 where
  pub forwarding : os.World → Bool
  pub forwarding-on :
      (w : os.World)
      → (os.write w ip_forward (codes "1")).1 ≡ true
      → forwarding (os.write w ip_forward (codes "1")).0 ≡ true
  pub forwarding-back :
      (w v : os.World) (shown : Text)
      → os.read w ip_forward ≡ some shown
      → (os.write v ip_forward shown).1 ≡ true
      → forwarding (os.write v ip_forward shown).0 ≡ forwarding w
  pub forwarding-exec :
      (w : os.World) (op : String) (rule : List Arg)
      → forwarding (os.exec w (nat_command op rule)).0 ≡ forwarding w
  pub rules : os.World → List Arg → ℕ
  pub rules-write :
      (w : os.World) (p : String) (t : Text) (rule : List Arg)
      → rules (os.write w p t).0 rule ≡ rules w rule
  pub rules-check :
      (w : os.World) (rule : List Arg)
      → rules (os.exec w (nat_command "-C" rule)).0 rule ≡ rules w rule
  pub check-true :
      (w : os.World) (rule : List Arg)
      → (os.exec w (nat_command "-C" rule)).1 ≡ some true
      → 0 < rules w rule
  pub rules-append :
      (w : os.World) (rule : List Arg)
      → rules (os.exec w (nat_command "-A" rule)).0 rule ≡ (
          if is_done (os.exec w (nat_command "-A" rule)).1
          then suc (rules w rule)
          else rules w rule)
  pub rules-delete :
      (w : os.World) (rule : List Arg)
      → rules (os.exec w (nat_command "-D" rule)).0 rule
        ≡ (if is_done (os.exec w (nat_command "-D" rule)).1 then rules w rule - 1 else rules w rule)

write_done : (done : Bool) (e : Error) → (if done then ok tt else err e) ≡ ok (tt {0}) → done ≡ true
write_done true e h = refl
write_done false e h = cc

abbrev pub one_if : Bool → ℕ
one_if true = 1
one_if false = 0

module _ {os : Os} (laws : NatLaws os) where
  -- What adding the rule does, by what it reports.
  add_rule_lem :
      (rule : List Arg) (w w' : os.World) (added : Bool)
      → add_rule os rule w ≡ (w', ok added)
      → (laws.rules w' rule ≡ laws.rules w rule + one_if added)
        × (0 < laws.rules w' rule)
        × (laws.forwarding w' ≡ laws.forwarding w)
  add_rule_lem rule w w' added h =
      let v = (os.exec w (nat_command "-C" rule)).0 in
      let v' = (os.exec v (nat_command "-A" rule)).0 in
      let add : Action os.World (Unit {0}) = run os (nat_command "-A" rule) in
      let seen : laws.rules v rule ≡ laws.rules w rule = laws.rules-check w rule in
      elim (Bool-cases (unwrap_or_false (run_status os (nat_command "-C" rule) w).1)) [
        | inl there ↦
            let outcome : add_rule os rule w ≡ (v, ok false) = simp there refl in
            let world : v ≡ w' = ap (λ r. r.0) (sym outcome ∙ h) in
            let value : ok false ≡ ok added = ap (λ r. r.1) (sym outcome ∙ h) in
            let same : false ≡ added = cc in
            let found =
              laws.check-true w rule (is_present (os.exec w (nat_command "-C" rule)).1 there) in
            rw (← world, ← same)
              (omega (arith, seen), omega (arith, seen), laws.forwarding-exec w "-C" rule)
        | inr missing ↦
            let outcome : add_rule os rule w ≡ (add >> pure true) v = simp missing refl in
            let step = and_then-ok (add v) (λ done. pure true) w' added (sym outcome ∙ h) in
            let world : v' ≡ w' = ap (λ r. r.0) step.2 in
            let value : ok true ≡ ok added = ap (λ r. r.1) step.2 in
            let same : true ≡ added = cc in
            let (done, self) =
              run-ok os (nat_command "-A" rule) v v' tt (ap (λ r. (v', r)) step.1) in
            let more : laws.rules v' rule ≡ suc (laws.rules v rule) =
              laws.rules-append v rule ∙ simp done refl in
            rw (← world, ← same)
              (
                omega (arith, seen, more),
                omega (arith, seen, more),
                laws.forwarding-exec v "-A" rule ∙ laws.forwarding-exec w "-C" rule,
              )
      ]

  -- What a guard holds of the world that it was made in.
  abbrev Made : Text → os.World → os.World → NatGuard → Type 0
  Made tun_cidr w w' guard =
      let rule = masquerade tun_cidr guard.egress in
      (guard.tun_cidr ≡ tun_cidr)
      × (guard.prev_forward ≡ os.read w ip_forward)
      × (laws.rules w' rule ≡ laws.rules w rule + one_if guard.rule_added)
      × (0 < laws.rules w' rule)
      × (laws.forwarding w' ≡ true)

  setup_lem :
      (tun_cidr : Text) (w w' : os.World) (guard : NatGuard)
      → setup os tun_cidr w ≡ (w', ok guard)
      → Made tun_cidr w w' guard
  unfolding setup
  setup_lem tun_cidr w w' guard h =
      let enable : Action os.World (Unit {0}) =
        write_file os "enable ip_forward" ip_forward (codes "1") in
      let guard_of : Text → Bool → NatGuard = λ egress added. record {
        tun_cidr = tun_cidr;
        egress = egress;
        prev_forward = os.read w ip_forward;
        rule_added = added;
      } in
      let finish : Text → Bool → Action os.World NatGuard =
        λ egress added. pure (guard_of egress added) in
      let adds : Text → Action os.World NatGuard =
        λ egress. add_rule os (masquerade tun_cidr egress) >>= finish egress in
      let detect : Action os.World Text =
        λ w. (w, with_context "detect egress iface for MASQUERADE" (default_egress_dev os w)) in
      let first = and_then-ok (enable w) (λ done. detect >>= adds) w' guard h in
      let v = (enable w).0 in
      let (egress, found, rest) = and_then-ok (detect v) adds w' guard first.2 in
      let adding = add_rule os (masquerade tun_cidr egress) v in
      let (added, was, made) = and_then-ok adding (finish egress) w' guard rest in
      let world : adding.0 ≡ w' = ap (λ r. r.0) made in
      let value : ok (guard_of egress added) ≡ ok guard = ap (λ r. r.1) made in
      let same : guard_of egress added ≡ guard = cc in
      let whole : adding ≡ (w', ok added) = ap (λ x. (x, adding.1)) world ∙ ap (λ x. (w', x)) was in
      let (count, present, apart) = add_rule_lem (masquerade tun_cidr egress) v w' added whole in
      let done =
        write_done (os.write w ip_forward (codes "1")).1 (context "enable ip_forward" (foreign 0))
          first.1 in
      subst (Made tun_cidr w w') same (
        refl,
        refl,
        count
            ∙ ap (λ n. n + one_if added)
                (laws.rules-write w ip_forward (codes "1") (masquerade tun_cidr egress)),
        present,
        apart ∙ laws.forwarding-on w done,
      )

  rules-deleted :
      (added : Bool) (rule : List Arg) (w : os.World) (n : ℕ)
      → laws.rules w rule ≡ n + one_if added
      → (added ≡ true → (os.exec w (nat_command "-D" rule)).1 ≡ some true)
      → laws.rules (if added then (os.exec w (nat_command "-D" rule)).0 else w) rule ≡ n
  rules-deleted true rule w n count works =
      let less : laws.rules (os.exec w (nat_command "-D" rule)).0 rule ≡ laws.rules w rule - 1 =
        ground (arith, laws.rules-delete w rule, works refl) in
      omega (arith, less, count)
  rules-deleted false rule w n count works = omega (arith, count)

  -- While the guard is held, forwarding is on and the rule is there. When it is dropped, forwarding is as
  -- it was before; and the rule stands as often as before, whether or not it was there already, unless
  -- the guard has added it and the command that deletes it fails. The setting must be readable, and
  -- writable again.
  pub remove-setup :
      (tun_cidr prev : Text) (w w' : os.World) (guard : NatGuard)
      → setup os tun_cidr w ≡ (w', ok guard)
      → os.read w ip_forward ≡ some prev
      → ((v : os.World) → (os.write v ip_forward prev).1 ≡ true)
      → let rule = masquerade tun_cidr guard.egress in
        let w'' = remove os guard w' in
        (laws.forwarding w' ≡ true)
        × (0 < laws.rules w' rule)
        × (laws.forwarding w'' ≡ laws.forwarding w)
        × ((guard.rule_added ≡ true → (os.exec w' (nat_command "-D" rule)).1 ≡ some true)
            → laws.rules w'' rule ≡ laws.rules w rule)
  unfolding remove
  remove-setup tun_cidr prev w w' guard h was writable =
      let (cidr, held, count, present, on) = setup_lem tun_cidr w w' guard h in
      let kept : guard.prev_forward ≡ some prev = held ∙ was in
      let v =
        if guard.rule_added
        then (os.exec w' (nat_command "-D" (masquerade tun_cidr guard.egress))).0
        else w' in
      let less =
        rules-deleted guard.rule_added (masquerade tun_cidr guard.egress) w'
          (laws.rules w (masquerade tun_cidr guard.egress)) count in
      (
        on,
        present,
        rw (kept, cidr) (laws.forwarding-back w v prev was (writable v)),
        λ works.
            rw (kept, cidr)
              (laws.rules-write v ip_forward prev (masquerade tun_cidr guard.egress) ∙ less works),
      )

  -- Where no default route is found, `setup` fails and leaves forwarding on: there is no guard that
  -- would turn it off again.
  pub setup_no_route :
      (tun_cidr : Text) (w : os.World) (e : Error)
      → (os.write w ip_forward (codes "1")).1 ≡ true
      → default_egress_dev os (os.write w ip_forward (codes "1")).0 ≡ err e
      → let r = setup os tun_cidr w in
        (r.1 ≡ err (context "detect egress iface for MASQUERADE" e)) × (laws.forwarding r.0 ≡ true)
  unfolding setup
  setup_no_route tun_cidr w e done missing = rw (done, missing) (refl, laws.forwarding-on w done)
