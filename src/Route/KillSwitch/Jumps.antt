-- ===== src/Route/KillSwitch/Jumps.antt =====
-- The number of jumps from `OUTPUT` to the kill switch's chain.
use soulvpn.Base.{
  ℕ, suc, ◌-◌, ◌≡◌, ◌<◌, ap, ◌∙◌, Bool, true, false, Option, none, some, List, Result, ok, err,
  arith, inl, inr, Bool-cases, if◌then◌else◌,
}
use soulvpn.Config.Chars.{Text}
use soulvpn.Route.Os.{Os, Arg, Action, and_then, ◌>>◌, pure, ignore, run, run_status, ran}
use soulvpn.Route.Os.Laws.{Keeps}
use soulvpn.Route.KillSwitch.{
  guard, new_chain, flush_chain, delete_chain, append_rule, check_jump, insert_jump, delete_jump,
  allow_loopback, allow_tunnel, allow_server, allow_established, allow_established_old, reject_rest,
  append, append_established, jump, install, remove, unwrap_or_false,
}
use soulvpn.Route.KillSwitch.Rules.{
  FilterLaws, creates, flushes, deletes, appends, is_done, is_present, armed,
}
use soulvpn.Route.KillSwitch.Laws.{or_else-cases}

module _ {os : Os} (laws : FilterLaws os) where
  -- The number of jumps, from none.
  abbrev Arms : {A : Type 0} → Action os.World A → Type 0
  Arms m = (w : os.World) → laws.jumps w ≡ 0 → laws.jumps (m w).0 ≡ armed (m w).1

  jumps-and_then :
      {B : Type 0} (r : os.World × Result (Unit {0})) (next : Action os.World B)
      → laws.jumps r.0 ≡ 0
      → Arms next
      → laws.jumps (and_then (λ done. next) r).0 ≡ armed (and_then (λ done. next) r).1
  jumps-and_then (w, ok done) next zero rest = rest w zero
  jumps-and_then (w, err e) next zero rest = zero

  and_then-Arms :
      {B : Type 0} (m : Action os.World (Unit {0})) (next : Action os.World B)
      → Keeps laws.jumps m
      → Arms next
      → Arms (m >> next)
  and_then-Arms m next first rest w zero = jumps-and_then (m w) next (first w ∙ zero) rest

  jumps-append_established : Keeps laws.jumps (append_established os)
  jumps-append_established w =
      or_else-cases laws (λ v. laws.jumps v ≡ laws.jumps w) (append os allow_established_old)
        (append os allow_established w)
        (λ fine. laws.jumps-OnChain w (append_rule allow_established) (appends allow_established))
        (λ e failed.
          laws.jumps-OnChain _ (append_rule allow_established_old) (appends allow_established_old)
          ∙ laws.jumps-OnChain w (append_rule allow_established) (appends allow_established))

  inserted :
      (v v' : os.World) (status : Option Bool)
      → laws.jumps v' ≡ (if is_done status then suc (laws.jumps v) else laws.jumps v)
      → laws.jumps v ≡ 0
      → let r = and_then (λ done. pure guard) (v', ran status) in laws.jumps r.0 ≡ armed r.1
  inserted v v' none made zero = made ∙ zero
  inserted v v' (some true) made zero = made ∙ ap suc zero
  inserted v v' (some false) made zero = made ∙ zero

  jump-Arms : Arms (jump os >> pure guard)
  jump-Arms w zero = elim (Bool-cases (unwrap_or_false (run_status os check_jump w).1)) [
    | inl there ↦
        let found = laws.check-true w (is_present (os.exec w check_jump).1 there) in
        absurd (omega arith)
    | inr missing ↦
        let v = (os.exec w check_jump).0 in
        simp missing (
          inserted v (os.exec v insert_jump).0 (os.exec v insert_jump).1 (laws.jumps-insert v)
            (laws.jumps-check w ∙ zero))
  ]

  -- From no jump to the chain: a successful install makes one and one that fails makes none.
  pub install-Arms : (server port : ℕ) (tun : Text) → Arms (install os server port tun)
  unfolding install
  install-Arms server port tun =
      let adds : (rule : List Arg) → Keeps laws.jumps (append os rule) =
        λ rule w. laws.jumps-OnChain w (append_rule rule) (appends rule) in
      and_then-Arms (ignore (run os new_chain)) _ (λ w. laws.jumps-OnChain w new_chain creates)
        (and_then-Arms (ignore (run os flush_chain)) _
          (λ w. laws.jumps-OnChain w flush_chain flushes)
          (and_then-Arms (append os allow_loopback) _ (adds allow_loopback) (
            and_then-Arms (append os (allow_tunnel tun)) _ (adds (allow_tunnel tun)) (
              and_then-Arms (append os (allow_server server port)) _
                (adds (allow_server server port))
                (and_then-Arms (append_established os) _ jumps-append_established (
                  and_then-Arms (append os reject_rest) (jump os >> pure guard) (adds reject_rest)
                    jump-Arms))))))

  -- Where the jump can be deleted, one is removed.
  pub jumps-remove :
      (w : os.World)
      → (0 < laws.jumps w → (os.exec w delete_jump).1 ≡ some true)
      → laws.jumps (remove os w) ≡ laws.jumps w - 1
  unfolding remove
  jumps-remove w works =
      let deleted : laws.jumps (os.exec w delete_jump).0 ≡ laws.jumps w - 1 =
        ground (arith, laws.jumps-delete w, works) in
      laws.jumps-OnChain _ delete_chain deletes ∙ laws.jumps-OnChain _ flush_chain flushes ∙ deleted
