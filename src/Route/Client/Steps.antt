-- ===== src/Route/Client/Steps.antt =====
-- What each command of `ClientRoutes` does to its routes.
use soulvpn.Base.{
  ℕ, ◌≡◌, ◌≢◌, refl, sym, ap, subst, ◌∙◌, Bool, true, false, Option, none, some, List, Result, ok,
  err, Error, text_eq, inl, inr, Bool-cases,
}
use soulvpn.Config.Chars.{Text}
use soulvpn.Route.Os.{Os, Arg, addr, Action, and_then, ◌>>◌, run}
use soulvpn.Route.Os.Laws.{then-Keeps, run-ok, run-err}
use soulvpn.Route.KillSwitch.Rules.{is_done}
use soulvpn.Route.Client.{
  ClientRoutes, low_half, high_half, through, via, replace, del, remove_split, remove_host,
  install_split,
}
use soulvpn.Route.Client.Laws.{
  Table, TidyHost, TidyHost-del, low-high, Half, Host, Others, Routed, Unrouted,
}

not_done : (status : Option Bool) → status ≢ some true → is_done status ≡ false
not_done none h = refl
not_done (some true) h = absurd (h refl)
not_done (some false) h = refl

after_either :
    {W B : Type 0} (P : W → Type 0) (r : W × Result (Unit {0})) (next : Action W B)
    → P r.0
    → ((w : W) → P w → P (next w).0)
    → P (and_then (λ done. next) r).0
after_either P (w, ok done) next at rest = rest w at
after_either P (w, err e) next at rest = at

then_either :
    {W B : Type 0} (P : W → Type 0) (m : Action W (Unit {0})) (next : Action W B)
    → ((w : W) → P w → P (m w).0)
    → ((w : W) → P w → P (next w).0)
    → (w : W) → P w
    → P ((m >> next) w).0
then_either P m next first rest w at = after_either P (m w) next (first w at) rest

module _ {os : Os} (laws : TidyHost os) (server : ℕ) (before : Table) (st : ClientRoutes) where
  abbrev At : os.World → Type 0
  At w = Routed server before st (laws.host.routes w)

  replace-Half :
      (w : os.World) (dest : Arg)
      → st.redirect_all ≡ true
      → Half st.redirect_all st.tun_name (laws.host.routes w dest)
      → Half st.redirect_all st.tun_name
          (laws.host.routes (os.exec w (replace dest (through st.tun_name))).0 dest)
  replace-Half w dest redirect before =
      let way = through st.tun_name in
      elim (Bool-cases (is_done (os.exec w (replace dest way)).1)) [
        | inl done ↦ inr (redirect, laws.host.routes-replace w dest way ∙ simp done refl)
        | inr failed ↦
            let same : laws.host.routes (os.exec w (replace dest way)).0 dest
                ≡ laws.host.routes w dest =
              laws.host.routes-replace w dest way ∙ simp failed refl in
            rw same before
      ]

  replace_low :
      (w : os.World)
      → st.redirect_all ≡ true
      → At w
      → At (os.exec w (replace low_half (through st.tun_name))).0
  replace_low w redirect (low, high, host, others) =
      let way = through st.tun_name in
      (
        replace-Half w low_half redirect low,
        rw (laws.host.routes-replace_other w low_half high_half way low-high) high,
        rw (laws.host.routes-replace_other w low_half (addr server) way (λ e. cc)) host,
        λ s l h a. laws.host.routes-replace_other w low_half s way l ∙ others s l h a,
      )

  replace_high :
      (w : os.World)
      → st.redirect_all ≡ true
      → At w
      → At (os.exec w (replace high_half (through st.tun_name))).0
  replace_high w redirect (low, high, host, others) =
      let way = through st.tun_name in
      (
        rw (laws.host.routes-replace_other w high_half low_half way (λ e. low-high (sym e))) low,
        replace-Half w high_half redirect high,
        rw (laws.host.routes-replace_other w high_half (addr server) way (λ e. cc)) host,
        λ s l h a. laws.host.routes-replace_other w high_half s way h ∙ others s l h a,
      )

  del-Half :
      (w : os.World) (dest : Arg)
      → Half st.redirect_all st.tun_name (laws.host.routes w dest)
      → laws.host.routes (os.exec w (del dest (through st.tun_name))).0 dest ≡ none
  del-Half w dest half =
      TidyHost-del laws w dest (through st.tun_name)
        (elim half [ inl missing ↦ inl missing | inr (redirect, there) ↦ inr there ])

  -- The routes through the tunnel are gone, and the host route is as it was.
  abbrev pub Kept : os.World → Type 0
  Kept w =
      (laws.host.routes w low_half ≡ none)
      × (laws.host.routes w high_half ≡ none)
      × Host server st (laws.host.routes w (addr server))
      × Others server before (laws.host.routes w)

  idle-Half :
      (way : Option (List Arg))
      → st.redirect_all ≡ false
      → Half st.redirect_all st.tun_name way
      → way ≡ none
  idle-Half way idle half = elim half [ inl missing ↦ missing | inr (redirect, there) ↦ cc ]

  pub remove_split-Kept :
      (w : os.World) → At w → Kept (remove_split os st.redirect_all st.tun_name w)
  remove_split-Kept w (low, high, host, others) = elim (Bool-cases st.redirect_all) [
    | inr idle ↦ simp idle (idle-Half _ idle low, idle-Half _ idle high, host, others)
    | inl redirect ↦
        let way = through st.tun_name in
        let v = (os.exec w (del low_half way)).0 in
        let high' : Half st.redirect_all st.tun_name (laws.host.routes v high_half) =
          rw (laws.host.routes-del_other w low_half high_half way low-high) high in
        simp redirect (
          laws.host.routes-del_other v high_half low_half way (λ e. low-high (sym e))
              ∙ del-Half w low_half low,
          del-Half v high_half high',
          rw
              (
                laws.host.routes-del_other v high_half (addr server) way (λ e. cc),
                laws.host.routes-del_other w low_half (addr server) way (λ e. cc),
              )
              host,
          λ s l h a.
              laws.host.routes-del_other v high_half s way h
              ∙ laws.host.routes-del_other w low_half s way l
              ∙ others s l h a,
        )
  ]

  pub remove_host-Unrouted :
      (w : os.World)
      → Kept w
      → Unrouted server before
          (laws.host.routes (remove_host os st.server_host st.via_gateway st.via_dev w))
  remove_host-Unrouted w (low, high, host, others) = elim host [
    | inl (missing, free) ↦ simp missing (low, high, free, others)
    | inr (gateway, dev, is_host, is_gateway, is_dev, there) ↦
        let way = via gateway dev in
        simp (is_host, is_gateway, is_dev)
          (
            laws.host.routes-del_other w (addr server) low_half way (λ e. cc) ∙ low,
            laws.host.routes-del_other w (addr server) high_half way (λ e. cc) ∙ high,
            TidyHost-del laws w (addr server) way (inr there),
            λ s l h a. laws.host.routes-del_other w (addr server) s way a ∙ others s l h a,
          )
  ]

  -- Whether it succeeds or not.
  pub install_split-At :
      (w : os.World) → At w → At (install_split os st.redirect_all st.tun_name w).0
  install_split-At w at = elim (Bool-cases st.redirect_all) [
    | inr idle ↦
        let same : (install_split os st.redirect_all st.tun_name w).0 ≡ w = simp idle refl in
        subst At (sym same) at
    | inl redirect ↦
        let first = run os (replace low_half (through st.tun_name)) in
        let next = run os (replace high_half (through st.tun_name)) in
        let same : (install_split os st.redirect_all st.tun_name w).0 ≡ ((first >> next) w).0 =
          simp redirect refl in
        subst At (sym same) (
          then_either At first next (λ w. replace_low w redirect) (λ w. replace_high w redirect) w
            at)
  ]

  -- Setting the host route, for a state that has it and one that has not.
  pub replace_host :
      (w : os.World) (gateway : ℕ) (dev : Text)
      → Unrouted server before (laws.host.routes w)
      → let st' = record st {
        server_host = some server;
        via_gateway = some gateway;
        via_dev = some dev;
      } in
        let r = run os (replace (addr server) (via gateway dev)) w in
        (r.1 ≡ ok tt → Routed server before st' (laws.host.routes r.0))
        × ((e : Error) → r.1 ≡ err e → Unrouted server before (laws.host.routes r.0))
  replace_host w gateway dev (low, high, free, others) =
      let way = via gateway dev in
      let w' = (os.exec w (replace (addr server) way)).0 in
      let low' = laws.host.routes-replace_other w (addr server) low_half way (λ e. cc) ∙ low in
      let high' = laws.host.routes-replace_other w (addr server) high_half way (λ e. cc) ∙ high in
      let others' : Others server before (laws.host.routes w') =
        λ s l h a. laws.host.routes-replace_other w (addr server) s way a ∙ others s l h a in
      (
        λ fine.
            let (done, self) =
              run-ok os (replace (addr server) way) w w' tt (ap (λ r. (w', r)) fine) in
            let made = laws.host.routes-replace w (addr server) way ∙ simp done refl in
            (inl low', inl high', inr (gateway, dev, refl, refl, refl, made), others'),
        λ e failed.
            let undone =
              not_done (os.exec w (replace (addr server) way)).1
                (run-err os (replace (addr server) way) w e failed) in
            (low', high', laws.host.routes-replace w (addr server) way ∙ simp undone free, others'),
      )

module _ {os : Os} (laws : TidyHost os) where
  pub jumps-remove_split :
      (redirect_all : Bool) (tun : Text) (w : os.World)
      → laws.host.filter.jumps (remove_split os redirect_all tun w) ≡ laws.host.filter.jumps w
  jumps-remove_split true tun w = laws.host.jumps-ip _ _ ∙ laws.host.jumps-ip w _
  jumps-remove_split false tun w = refl

  pub jumps-remove_host :
      (host gateway : Option ℕ) (dev : Option Text) (w : os.World)
      → laws.host.filter.jumps (remove_host os host gateway dev w) ≡ laws.host.filter.jumps w
  jumps-remove_host (some host) (some gw) (some dev) w = laws.host.jumps-ip w _
  jumps-remove_host (some host) (some gw) none w = refl
  jumps-remove_host (some host) none dev w = refl
  jumps-remove_host none gw dev w = refl

  pub jumps-install_split :
      (redirect_all : Bool) (tun : Text) (w : os.World)
      → laws.host.filter.jumps (install_split os redirect_all tun w).0 ≡ laws.host.filter.jumps w
  jumps-install_split true tun w =
      then-Keeps laws.host.filter.jumps (run os (replace low_half (through tun)))
        (run os (replace high_half (through tun))) (λ w. laws.host.jumps-ip w _)
        (λ w. laws.host.jumps-ip w _) w
  jumps-install_split false tun w = refl
