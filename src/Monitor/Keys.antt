-- ===== src/Monitor/Keys.antt =====
-- What the keys of src/monitor.rs do to the daemon.
use soulvpn.Base.{
  ℕ, ◌≡◌, refl, sym, ap, ◌∙◌, Bool, true, false, Bool-cases, inl, inr, not, Option, none, some, ok,
  ◌==◌, if◌then◌else◌, arith,
}
use soulvpn.Config.Chars.{Text}
use soulvpn.Stats.{Clock, RuntimeStats, StatusSnapshot, snapshot}
use soulvpn.Control.{dispatch, exchange}
use soulvpn.Control.Laws.{CarriedRequest, CarriedResponse, op_of, exchange-toggle}
use soulvpn.Control.Ask.{Stream}
use soulvpn.Control.Ask.Laws.{Answers, request-exchange}
use soulvpn.Monitor.{KeyCode, char, esc, other_key, Screen, Ui, ask, on_key}

-- The state that a key asks for: `o` for on, `f` for off, and space for the other one than is shown.
abbrev pub wanted : KeyCode → Ui → Option Bool
wanted esc ui = none
wanted other_key ui = none
wanted (char c) ui =
    if c == 111
    then some true
    else if c == 102
    then some false
    else if c == 32
    then some (not ui.snap.enabled)
    else none

-- What is shown then.
abbrev pub shown : Ui → StatusSnapshot → Ui
shown ui snap = record ui {
  snap = snap;
  msg = some (if snap.enabled then "tunnel enabled" else "tunnel disabled");
  err_text = none;
}

others :
    (c : ℕ) → (c == 32) ≡ true → ((c == 113) ≡ false) × ((c == 111) ≡ false) × ((c == 102) ≡ false)
others c space = (ground (arith, space), ground (arith, space), ground (arith, space))

module _ (s : Screen) (socket : Text) where
  space-answered :
      (c : ℕ) (ui : Ui) (on shown_on : Bool) (w w' : s.World) (snap : StatusSnapshot)
      → (c == 32) ≡ true
      → ui.snap.enabled ≡ shown_on
      → not shown_on ≡ on
      → ask s socket (op_of on) w ≡ (w', ok snap)
      → on_key s socket (char c) ui w ≡ (w', shown ui snap, true)
  unfolding on_key
  space-answered c ui on true w w' snap space now flip asked =
      let (no_q, no_o, no_f) = others c space in
      let asked' : ask s socket "off" w ≡ (w', ok snap) =
        ap (λ b. ask s socket (op_of b) w) flip ∙ asked in
      simp (no_q, no_o, no_f, space, now, asked') refl
  space-answered c ui on false w w' snap space now flip asked =
      let (no_q, no_o, no_f) = others c space in
      let asked' : ask s socket "on" w ≡ (w', ok snap) =
        ap (λ b. ask s socket (op_of b) w) flip ∙ asked in
      simp (no_q, no_o, no_f, space, now, asked') refl

  on_key-answered :
      (code : KeyCode) (ui : Ui) (on : Bool) (w w' : s.World) (snap : StatusSnapshot)
      → wanted code ui ≡ some on
      → ask s socket (op_of on) w ≡ (w', ok snap)
      → snap.enabled ≡ on
      → on_key s socket code ui w ≡ (w', shown ui snap, true)
  unfolding on_key
  on_key-answered esc ui on w w' snap want asked set = cc
  on_key-answered other_key ui on w w' snap want asked set = cc
  on_key-answered (char c) ui on w w' snap want asked set = elim (Bool-cases (c == 111)) [
    | inl o ↦
        let value : some true ≡ some on = simp o at want in
        let same : true ≡ on = cc in
        let no_q : (c == 113) ≡ false = ground (arith, o) in
        let asked' : ask s socket "on" w ≡ (w', ok snap) =
          ap (λ b. ask s socket (op_of b) w) same ∙ asked in
        simp (no_q, o, asked', set, sym same) refl
    | inr not_o ↦ elim (Bool-cases (c == 102)) [
      | inl f ↦
          let value : some false ≡ some on = simp (not_o, f) at want in
          let same : false ≡ on = cc in
          let no_q : (c == 113) ≡ false = ground (arith, f) in
          let asked' : ask s socket "off" w ≡ (w', ok snap) =
            ap (λ b. ask s socket (op_of b) w) same ∙ asked in
          simp (no_q, not_o, f, asked', set, sym same) refl
      | inr not_f ↦ elim (Bool-cases (c == 32)) [
        | inl space ↦
            let value : some (not ui.snap.enabled) ≡ some on = simp (not_o, not_f, space) at want in
            let flip : not ui.snap.enabled ≡ on = cc in
            space-answered c ui on ui.snap.enabled w w' snap space refl flip asked
        | inr not_space ↦ let clash : none ≡ some on = simp (not_o, not_f, not_space) at want in cc
      ]
    ]
  ]

  -- The keys `o`, `f` and space, where the daemon is reached, answers as it does and the messages fit a
  -- frame: the data plane is in the state that the key asks for, which is the other one than is shown for
  -- space, and the screen shows the daemon's snapshot of that moment, its state, and no error.
  pub on_key-exchange :
      (pid : ℕ) (now : Clock) (stats : RuntimeStats) (code : KeyCode) (ui : Ui) (on : Bool)
      (stream : Stream s.World) (w w' w'' : s.World)
      → wanted code ui ≡ some on
      → CarriedRequest s.json (op_of on)
      → CarriedResponse s.json (dispatch pid now stats (record { op = op_of on })).response
      → s.connect socket w ≡ (w', ok stream)
      → Answers s.json pid now stats (op_of on) stream w' w''
      → let after = (exchange s.json pid now stats (op_of on)).0 in
        (after.enabled ≡ on)
        × (on_key s socket code ui w ≡ (w'', shown ui (snapshot pid now after), true))
  on_key-exchange pid now stats code ui on stream w w' w'' want fits fits' reached answers =
      let (set, hooks, got, seen) = exchange-toggle s.json pid now stats on fits fits' in
      let after = (exchange s.json pid now stats (op_of on)).0 in
      let asked : ask s socket (op_of on) w ≡ (w'', ok (snapshot pid now after)) =
        request-exchange s.json s.connect pid now stats (op_of on) socket stream w w' w'' reached
          answers
        ∙ ap (λ r. (w'', r)) got in
      (set, on_key-answered code ui on w w'' (snapshot pid now after) want asked seen)
