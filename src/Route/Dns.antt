-- ===== src/Route/Dns.antt =====
-- src/route.rs, `DnsGuard` (lines 405-448).
pub mod Laws
use soulvpn.Base.{
  ℕ, Bool, true, false, Option, none, some, List, [], ◌∷◌, ◌++◌, if◌then◌else◌, Result, ok, err,
  foreign, context, String, codes,
}
use soulvpn.Config.Chars.{Text}
use soulvpn.Route.Os.{Os, Action, ◌>>=◌, ◌>>◌, pure, write_file}

abbrev pub resolv : String
resolv = "/etc/resolv.conf"

abbrev pub resolv_backup : String
resolv_backup = "/etc/resolv.conf.soulvpn.bak"

pub record DnsGuard : Type 0 where
  pub restored : Bool

abbrev pub nameservers : List Text → Text
nameservers [] = []
nameservers (s ∷ servers) = (codes "nameserver " ++ (s ++ (10 ∷ []))) ++ nameservers servers

abbrev pub resolv_body : List Text → Text
resolv_body servers = codes "# Managed by soulvpn — do not edit\n" ++ nameservers servers

module _ (os : Os) where
  abbrev pub read_file : String → String → Action os.World Text
  read_file message path w = elim (os.read w path) [
    | none ↦ (w, err (context message (foreign 0)))
    | some text ↦ (w, ok text)
  ]

  -- Lines 414-420.
  abbrev pub back_up : Action os.World (Unit {0})
  back_up w =
      if os.exists w resolv
      then (read_file "read resolv.conf" resolv >>= λ content w'.
            (if os.exists w' resolv_backup
              then (w', ok tt)
              else write_file os "backup resolv.conf" resolv_backup content w'))
          w
      else (w, ok tt)

  unfoldable pub install : List Text → Action os.World DnsGuard
  install servers = do
    back_up
    write_file os "write resolv.conf" resolv (resolv_body servers)
    pure (record { restored = false })

  abbrev pub rewritten : os.World → Option Text → os.World
  rewritten w none = w
  rewritten w (some content) = (os.write w resolv content).0

  -- Lines 435-440.
  abbrev pub put_back : os.World → os.World
  put_back w =
      if os.exists w resolv_backup
      then (os.remove_file (rewritten w (os.read w resolv_backup)) resolv_backup).0
      else w

  -- The guard and the world after the call; dropping the guard calls it.
  unfoldable pub restore : DnsGuard → os.World → DnsGuard × os.World
  restore guard w = if guard.restored then (guard, w) else (record { restored = true }, put_back w)
