-- ===== src/Route/Dns/Laws.antt =====
-- Taking over and giving back `/etc/resolv.conf`.
use soulvpn.Base.{
  ◌≡◌, ◌≢◌, refl, sym, ap, ◌∙◌, Bool, true, false, Option, none, some, List, Result, ok, err,
  context, foreign, String, ◌=?=◌, text_eq, inl, inr, ◌⊎◌, Option-cases, Bool-cases,
}
use soulvpn.Config.Chars.{Text}
use soulvpn.Route.Os.{Os, Action, ◌>>◌, pure, write_file}
use soulvpn.Route.Os.Laws.{and_then-ok}
use soulvpn.Route.Dns.{
  resolv, resolv_backup, DnsGuard, resolv_body, read_file, back_up, install, restore,
}

abbrev pub is_some : Option Text → Bool
is_some none = false
is_some (some t) = true

-- What is relied on of the two files: a write that is done is read back, a removal that is done leaves no
-- file, each concerns one file, and a file that exists can be read.
pub record FileLaws (os : Os) : Type 0 where
  pub read-write :
      (w : os.World) (p : String) (t : Text)
      → (p ≡ resolv) ⊎ (p ≡ resolv_backup)
      → (os.write w p t).1 ≡ true
      → os.read (os.write w p t).0 p ≡ some t
  pub read-write_other :
      (w : os.World) (p q : String) (t : Text) → p ≢ q → os.read (os.write w p t).0 q ≡ os.read w q
  pub read-remove_file :
      (w : os.World) (p : String)
      → (os.remove_file w p).1 ≡ true
      → os.read (os.remove_file w p).0 p ≡ none
  pub read-remove_file_other :
      (w : os.World) (p q : String) → p ≢ q → os.read (os.remove_file w p).0 q ≡ os.read w q
  pub exists-read : (w : os.World) (p : String) → os.exists w p ≡ is_some (os.read w p)

-- What `/etc/resolv.conf` is to become again: the backup, or where there is none what it says now.
abbrev pub saved_or : Option Text → Option Text → Option Text
saved_or (some t) now = some t
saved_or none now = now

module _ (os : Os) where
  abbrev pub original : os.World → Option Text
  original w = saved_or (os.read w resolv_backup) (os.read w resolv)

abbrev restored_of : Result DnsGuard → Bool
restored_of (ok guard) = guard.restored
restored_of (err e) = true

resolv_ne : resolv ≢ resolv_backup
resolv_ne e =
    let same : (resolv =?= resolv_backup) ≡ true = (text_eq.beq_iff resolv resolv_backup).1 e in cc

module _ {os : Os} (laws : FileLaws os) where
  read-back_up :
      (w : os.World) (content b : Text)
      → os.read w resolv ≡ some content
      → original os w ≡ some b
      → (back_up os w).1 ≡ ok tt
      → os.read (back_up os w).0 resolv_backup ≡ some b
  read-back_up w content b now was fine =
      let there : os.exists w resolv ≡ true = rw (laws.exists-read w resolv, now) refl in
      elim (Option-cases (os.read w resolv_backup)) [
        | inl missing ↦
            let gone : os.exists w resolv_backup ≡ false =
              rw (laws.exists-read w resolv_backup, missing) refl in
            let to : original os w ≡ some content = simp (missing, now) refl in
            elim (Bool-cases (os.write w resolv_backup content).1) [
              | inl done ↦
                  simp (there, now, gone, done, read_file)
                    (laws.read-write w resolv_backup content (inr refl) done ∙ sym to ∙ was)
              | inr failed ↦
                  let clash : (back_up os w).1 ≡ err (context "backup resolv.conf" (foreign 0)) =
                    simp (there, now, gone, failed, read_file) refl in
                  cc
            ]
        | inr (old, found) ↦
            let kept : os.exists w resolv_backup ≡ true =
              rw (laws.exists-read w resolv_backup, found) refl in
            let to : original os w ≡ some old = simp found refl in
            simp (there, now, kept, read_file) (found ∙ sym to ∙ was)
      ]

  pub install-original :
      (w : os.World) (servers : List Text) (content b : Text) (w' : os.World) (guard : DnsGuard)
      → os.read w resolv ≡ some content
      → original os w ≡ some b
      → install os servers w ≡ (w', ok guard)
      → (os.read w' resolv_backup ≡ some b) × (guard.restored ≡ false)
  unfolding install
  install-original w servers content b w' guard now was run =
      let write : Action os.World (Unit {0}) =
        write_file os "write resolv.conf" resolv (resolv_body servers) in
      let made : Action os.World DnsGuard = pure (record { restored = false }) in
      let first = and_then-ok (back_up os w) (λ done. write >> made) w' guard run in
      let kept = read-back_up w content b now was (first.1) in
      let second = and_then-ok (write (back_up os w).0) (λ done. made) w' guard (first.2) in
      let after = (write (back_up os w).0).0 in
      let world : after ≡ w' = ap (λ (p : os.World × Result DnsGuard). p.0) (second.2) in
      let value : ok (record { restored = false }) ≡ ok guard =
        ap (λ (p : os.World × Result DnsGuard). p.1) (second.2) in
      (
        rw (← world) (
            laws.read-write_other (back_up os w).0 resolv resolv_backup (resolv_body servers)
              resolv_ne
            ∙ kept),
        sym (ap restored_of value),
      )

  pub read-restore :
      (w : os.World) (b : Text) (guard : DnsGuard)
      → os.read w resolv_backup ≡ some b
      → guard.restored ≡ false
      → let w' = (restore os guard w).1 in
        ((os.remove_file (os.write w resolv b).0 resolv_backup).1 ≡ true
          → os.read w' resolv_backup ≡ none)
        × ((os.write w resolv b).1 ≡ true → os.read w' resolv ≡ some b)
  unfolding restore
  read-restore w b guard kept live =
      let there : os.exists w resolv_backup ≡ true =
        rw (laws.exists-read w resolv_backup, kept) refl in
      rw (live, there, kept)
        (
          laws.read-remove_file (os.write w resolv b).0 resolv_backup,
          λ done.
              laws.read-remove_file_other (os.write w resolv b).0 resolv_backup resolv
                (λ e. resolv_ne (sym e))
              ∙ laws.read-write w resolv b (inl refl) done,
        )

  -- Taking `/etc/resolv.conf` over and giving it back: what it said before is what it says in the end,
  -- also where an earlier run ended without giving it back and left its backup, as long as the write
  -- back succeeds. The backup is gone if its removal succeeds, also where the write back has failed. This
  -- is for a system where `/etc/resolv.conf` exists.
  pub restore-install :
      (w : os.World) (servers : List Text) (content b : Text) (w' : os.World) (guard : DnsGuard)
      → os.read w resolv ≡ some content
      → original os w ≡ some b
      → install os servers w ≡ (w', ok guard)
      → let w'' = (restore os guard w').1 in
        ((os.remove_file (os.write w' resolv b).0 resolv_backup).1 ≡ true
          → os.read w'' resolv_backup ≡ none)
        × ((os.write w' resolv b).1 ≡ true → os.read w'' resolv ≡ some b)
  restore-install w servers content b w' guard now was run =
      let held = install-original w servers content b w' guard now was run in
      read-restore w' b guard held.0 held.1
