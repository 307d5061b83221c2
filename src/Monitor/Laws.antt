-- ===== src/Monitor/Laws.antt =====
-- What `run` of src/monitor.rs does to the terminal.
use soulvpn.Base.{
  ℕ, ◌-◌, ◌≡◌, refl, sym, subst, ap, ◌∙◌, Bool, true, false, Option, none, some, Result, ok, err,
  Error,
}
use soulvpn.Base.Actions.{Action, ◌>>◌, pure, and_then, after_ok, after_err}
use soulvpn.Config.Chars.{Text}
use soulvpn.Route.Os.Laws.{Keeps}
use soulvpn.Stats.{StatusSnapshot}
use soulvpn.Monitor.{Screen, Ui, tick, ask, ui_loop, give_back, after_loop, begin, with_loop, run}

-- What is relied on of `crossterm`: two modes of the terminal, each of which one call turns on and one
-- turns off, where the call succeeds; a request over the socket does not change them.
pub record ScreenLaws (s : Screen) : Type 0 where
  pub is_raw : s.World → Bool
  pub is_alternate : s.World → Bool
  pub raw-enable :
      (w : s.World) → (s.enable_raw_mode w).1 ≡ ok tt → is_raw (s.enable_raw_mode w).0 ≡ true
  pub raw-enter : Keeps is_raw s.enter_alternate
  pub raw-disable :
      (w : s.World) → (s.disable_raw_mode w).1 ≡ ok tt → is_raw (s.disable_raw_mode w).0 ≡ false
  pub raw-leave : Keeps is_raw s.leave_alternate
  pub raw-show : Keeps is_raw s.show_cursor
  pub alternate-leave :
      (w : s.World) → (s.leave_alternate w).1 ≡ ok tt → is_alternate (s.leave_alternate w).0 ≡ false
  pub alternate-show : Keeps is_alternate s.show_cursor

module _ {s : Screen} (laws : ScreenLaws s) (socket : Text) where
  -- The calls at the end succeed.
  pub record Works : Type 0 where
    pub disables : (w : s.World) → (s.disable_raw_mode w).1 ≡ ok tt
    pub leaves : (w : s.World) → (s.leave_alternate w).1 ≡ ok tt
    pub shows : (w : s.World) → (s.show_cursor w).1 ≡ ok tt

  abbrev pub Restored : s.World → Type 0
  Restored w = (laws.is_raw w ≡ false) × (laws.is_alternate w ≡ false)

  give_back-Restored :
      (result : Result (Unit {0})) (w : s.World)
      → Works
      → let (w', r) = give_back s socket result w in Restored w' × (r ≡ result)
  give_back-Restored result w works =
      let w1 = (s.disable_raw_mode w).0 in
      let w2 = (s.leave_alternate w1).0 in
      let w3 = (s.show_cursor w2).0 in
      let ends : Action s.World (Unit {0}) = λ v. (v, result) in
      let outcome : give_back s socket result w ≡ (w3, result) =
        after_ok (s.disable_raw_mode w) (λ done. s.leave_alternate >> (s.show_cursor >> ends)) tt
          (works.disables w)
        ∙ after_ok (s.leave_alternate w1) (λ done. s.show_cursor >> ends) tt (works.leaves w1)
        ∙ after_ok (s.show_cursor w2) (λ done. ends) tt (works.shows w2) in
      simp outcome (
        (
          laws.raw-show w2 ∙ laws.raw-leave w1 ∙ laws.raw-disable w (works.disables w),
          laws.alternate-show w2 ∙ laws.alternate-leave w1 (works.leaves w1),
        ),
        refl,
      )

  -- A loop that has ended in some way.
  abbrev pub Ended :
      s.World × Option (Result (Unit {0})) → s.World × Option (Result (Unit {0})) → Type 0
  Ended (v, none) after = Unit
  Ended (v, some result) (w, none) = ⊥
  Ended (v, some result) (w, some r) = Restored w × (r ≡ result)

  after_loop-Ended :
      (looped : s.World × Option (Result (Unit {0})))
      → Works
      → Ended looped (after_loop s socket looped)
  after_loop-Ended (w, none) works = tt
  after_loop-Ended (w, some result) works = give_back-Restored result w works

  -- Where the terminal has been taken over, and the calls that give it back succeed, the monitor ends as
  -- soon as its loop does, however many turns that takes: with the terminal out of raw mode and out of the
  -- alternate screen, and with the loop's own result, an error included.
  pub run-Ended :
      (turns : ℕ) (w v : s.World) (first : StatusSnapshot)
      → Works
      → begin s socket (ask s socket "status" w) ≡ (v, ok first)
      → let ui : Ui = record {
        snap = first;
        last_poll = s.instant v - tick;
        err_text = none;
        msg = none;
      } in
        Ended (ui_loop s socket turns ui v) (run s socket turns w)
  unfolding run
  run-Ended turns w v first works taken =
      let ui : Ui = record {
        snap = first;
        last_poll = s.instant v - tick;
        err_text = none;
        msg = none;
      } in
      subst (λ r. Ended (ui_loop s socket turns ui v) (with_loop s socket turns r)) (sym taken)
        (after_loop-Ended (ui_loop s socket turns ui v) works)

  -- Where the alternate screen cannot be entered, the monitor ends with that error and leaves the
  -- terminal in raw mode.
  pub run_half_way :
      (turns : ℕ) (w v : s.World) (first : StatusSnapshot) (e : Error)
      → ask s socket "status" w ≡ (v, ok first)
      → (s.enable_raw_mode v).1 ≡ ok tt
      → (s.enter_alternate (s.enable_raw_mode v).0).1 ≡ err e
      → let (w', r) = run s socket turns w in (r ≡ some (err e)) × (laws.is_raw w' ≡ true)
  unfolding run
  run_half_way turns w v first e asked enabled failed =
      let v1 = (s.enable_raw_mode v).0 in
      let next : Action s.World StatusSnapshot = pure first in
      let entering =
        after_ok (s.enable_raw_mode v) (λ done. s.enter_alternate >> s.new_terminal) tt enabled
        ∙ after_err (s.enter_alternate v1) (λ done. s.new_terminal) e failed in
      let begun : begin s socket (v, ok first) ≡ ((s.enter_alternate v1).0, err e) =
        ap (λ r. and_then (λ done. next) r) entering in
      let outcome : run s socket turns w ≡ ((s.enter_alternate v1).0, some (err e)) =
        ap (λ r. with_loop s socket turns (begin s socket r)) asked
        ∙ ap (with_loop s socket turns) begun in
      simp outcome (refl, laws.raw-enter v1 ∙ laws.raw-enable v enabled)
