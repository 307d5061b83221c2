-- ===== src/Route/KillSwitch/Laws.antt =====
-- What a successful install of the kill switch leaves in its chain.
use soulvpn.Base.{
  ℕ, suc, ◌<◌, ◌≡◌, refl, sym, ap, ◌∙◌, Bool, true, false, none, some, List, [], ◌∷◌, ◌++◌,
  append-nil, Result-cases, Error, subst, Result, ok, err, arith, ◌⊎◌, inl, inr, Bool-cases,
  Option-cases, if◌then◌else◌,
}
use soulvpn.Config.Chars.{Text}
use soulvpn.Route.Os.{Os, Arg, Action, ◌>>◌, pure, run, run_status}
use soulvpn.Route.Os.Laws.{run-ok, run-err, Ensures, and_then-Ensures}
use soulvpn.Route.KillSwitch.{
  KillSwitch, guard, new_chain, flush_chain, append_rule, check_jump, insert_jump, allow_loopback,
  allow_tunnel, allow_server, allow_established, allow_established_old, reject_rest, append,
  append_established, jump, install, or_else, unwrap_or_false,
}
use soulvpn.Route.KillSwitch.Rules.{
  is_done, FilterLaws, Replies, rules_of, leftover, gathered, is_present,
}

module _ {os : Os} (laws : FilterLaws os) where
  abbrev Holds : List (List Arg) → os.World → Type 0
  Holds rules w = laws.chain w ≡ some rules

  -- The chain is missing, or has these rules.
  abbrev Left : List (List Arg) → os.World → Type 0
  Left left w = (laws.chain w ≡ none) ⊎ (laws.chain w ≡ some left)

  leftover_lem :
      (flushed : Bool) (rules : List (List Arg))
      → (if flushed then [] else rules) ≡ leftover flushed (some rules)
  leftover_lem true rules = refl
  leftover_lem false rules = refl

  flush-Left :
      (w : os.World)
      → Left (leftover (is_done (os.exec w flush_chain).1) (laws.chain w)) (os.exec w flush_chain).0
  flush-Left w = elim (Option-cases (laws.chain w)) [
    | inl missing ↦ inl (laws.chain-flush_none w missing)
    | inr (rules, there) ↦ inr (
        rw there (
          laws.chain-flush w rules there
          ∙ ap some (leftover_lem (is_done (os.exec w flush_chain).1) rules)))
  ]

  append-Holds :
      (rules : List (List Arg)) (rule : List Arg)
      → Ensures (Holds rules) (append os rule) (Holds (rules ++ rule ∷ []))
  append-Holds rules rule w w' done there h =
      let (fine, world) = run-ok os (append_rule rule) w w' done h in
      let (old, was, now) = laws.chain-append w rule fine in
      let same : old ≡ rules = cc in rw (← world, now, same) refl

  append-Left :
      (left : List (List Arg)) (rule : List Arg)
      → Ensures (Left left) (append os rule) (Holds (left ++ rule ∷ []))
  append-Left left rule w w' done before h =
      let (fine, world) = run-ok os (append_rule rule) w w' done h in
      let (old, was, now) = laws.chain-append w rule fine in
      let same : old ≡ left = elim before [ inl missing ↦ cc | inr there ↦ cc ] in
      rw (← world, now, same) refl

  abbrev Answered : List (List Arg) → os.World → Type 0
  Answered rules w = (replies : List (List Arg)) × Replies replies × Holds (rules ++ replies) w

  pub or_else-cases :
      (P : os.World → Type 0) (other : Action os.World (Unit {0}))
      (r : os.World × Result (Unit {0}))
      → (r.1 ≡ ok tt → P r.0)
      → ((e : Error) → r.1 ≡ err e → P (other r.0).0)
      → P (or_else os other r).0
  or_else-cases P other (w, ok done) fine failed = fine refl
  or_else-cases P other (w, err e) fine failed = failed e refl

  old-Answered :
      (rules : List (List Arg)) (w : os.World)
      → Holds rules w
      → Answered rules (append os allow_established_old w).0
  old-Answered rules w there =
      let next = append os allow_established_old in
      elim (Result-cases (next w).1) [
        | inl (done, fine) ↦ (
          allow_established_old ∷ [],
          inr (inr refl),
          append-Holds rules allow_established_old w (next w).0 tt there
              (ap (λ r. ((next w).0, r)) fine),
        )
        | inr (e, failed) ↦ (
          [],
          inl refl,
          rw (append-nil rules) (
              laws.chain-append_failed w allow_established_old
                (run-err os (append_rule allow_established_old) w e failed)
              ∙ there),
        )
      ]

  established-Answered :
      (rules : List (List Arg)) → Ensures (Holds rules) (append_established os) (Answered rules)
  established-Answered rules w w' done there h =
      let first = append os allow_established in
      subst (Answered rules) (ap (λ r. r.0) h) (
        or_else-cases (Answered rules) (append os allow_established_old) (first w)
          (λ fine. (
            allow_established ∷ [],
            inr (inl refl),
            append-Holds rules allow_established w (first w).0 tt there
                (ap (λ r. ((first w).0, r)) fine),
          ))
          (λ e failed.
            let left : Holds rules (first w).0 =
              laws.chain-append_failed w allow_established
                (run-err os (append_rule allow_established) w e failed)
              ∙ there in
            old-Answered rules (first w).0 left))

  jump-chain : (w : os.World) → laws.chain (jump os w).0 ≡ laws.chain w
  jump-chain w = elim (Bool-cases (unwrap_or_false (run_status os check_jump w).1)) [
    | inl there ↦ simp there (laws.chain-check w)
    | inr missing ↦ simp missing (laws.chain-insert (os.exec w check_jump).0 ∙ laws.chain-check w)
  ]

  jumps-jump : (w : os.World) → (jump os w).1 ≡ ok tt → 0 < laws.jumps (jump os w).0
  jumps-jump w fine =
      let checked = run_status os check_jump w in
      elim (Bool-cases (unwrap_or_false checked.1)) [
        | inl there ↦
            let found = laws.check-true w (is_present (os.exec w check_jump).1 there) in
            simp there (omega (arith, laws.jumps-check w))
        | inr missing ↦
            let same : (jump os w).1 ≡ (run os insert_jump checked.0).1 = simp missing refl in
            let (done, world) =
              run-ok os insert_jump checked.0 (os.exec checked.0 insert_jump).0 tt
                (ap (λ r. ((os.exec checked.0 insert_jump).0, r)) (sym same ∙ fine)) in
            let more : laws.jumps (os.exec checked.0 insert_jump).0 ≡ suc (laws.jumps checked.0) =
              laws.jumps-insert checked.0 ∙ simp done refl in
            simp missing (omega (arith, more))
      ]

  module _ (left : List (List Arg)) (server port : ℕ) (tun : Text) where
    -- The rules up to those for replies.
    abbrev opened : List (List Arg)
    opened =
        ((left ++ allow_loopback ∷ []) ++ allow_tunnel tun ∷ []) ++ allow_server server port ∷ []

    abbrev Closed : os.World → Type 0
    Closed w =
        (replies : List (List Arg)) × Replies replies
        × Holds (left ++ rules_of server port tun replies) w

    reject-Closed : Ensures (Answered opened) (append os reject_rest) Closed
    reject-Closed w w' done (replies, which, there) h = (
      replies,
      which,
      append-Holds (opened ++ replies) reject_rest w w' done there h
          ∙ ap some (gathered left replies server port tun),
    )

    jump-Closed : Ensures Closed (jump os) (λ w. Closed w × (0 < laws.jumps w))
    jump-Closed w w' done (replies, which, there) h =
        let jumped : 0 < laws.jumps (jump os w).0 = jumps-jump w (ap (λ r. r.1) h) in
        subst (λ v. Closed v × (0 < laws.jumps v)) (ap (λ r. r.0) h)
          ((replies, which, jump-chain w ∙ there), jumped)

    -- The steps from the first rule on.
    abbrev steps : Action os.World KillSwitch
    steps =
        append os allow_loopback
        >> (append os (allow_tunnel tun)
            >> (append os (allow_server server port)
                >> (append_established os >> (append os reject_rest >> (jump os >> pure guard)))))

    steps-Closed : Ensures (Left left) steps (λ w. Closed w × (0 < laws.jumps w))
    steps-Closed = and_then-Ensures (append os allow_loopback) _ (append-Left left allow_loopback) (
        and_then-Ensures (append os (allow_tunnel tun)) _
          (append-Holds (left ++ allow_loopback ∷ []) (allow_tunnel tun))
          (and_then-Ensures (append os (allow_server server port)) _
            (append-Holds ((left ++ allow_loopback ∷ []) ++ allow_tunnel tun ∷ [])
              (allow_server server port))
            (and_then-Ensures (append_established os) _ (established-Answered opened) (
              and_then-Ensures (append os reject_rest) _ reject-Closed (
                and_then-Ensures (jump os) (pure guard) jump-Closed (λ w w' ks before h.
                  subst (λ v. Closed v × (0 < laws.jumps v)) (ap (λ r. r.0) h) before))))))

  -- After a successful install, `OUTPUT` jumps to the chain, and the chain has exactly the rules of the
  -- kill switch in their order, behind the rules that an earlier run left in it if `-F` has failed, and
  -- behind none if it has not. Of the two rules for replies it has one or, where neither can be added,
  -- none.
  pub install-Closed :
      (server port : ℕ) (tun : Text) (w w' : os.World) (ks : KillSwitch)
      → install os server port tun w ≡ (w', ok ks)
      → let v = (os.exec w new_chain).0 in
        let left = leftover (is_done (os.exec v flush_chain).1) (laws.chain v) in
        (replies : List (List Arg)) × Replies replies
        × (laws.chain w' ≡ some (left ++ rules_of server port tun replies))
        × (0 < laws.jumps w')
  unfolding install
  install-Closed server port tun w w' ks h =
      let v = (os.exec w new_chain).0 in
      let left = leftover (is_done (os.exec v flush_chain).1) (laws.chain v) in
      let ((replies, which, there), jumped) =
        steps-Closed left server port tun (os.exec v flush_chain).0 w' ks (flush-Left v) h in
      (replies, which, there, jumped)
