-- ===== src/Monitor.antt =====
-- src/monitor.rs, `run` and `ui_loop` (lines 69-160). The terminal and the keyboard are the parameter
-- `Screen`. The rates of bytes are only drawn, and are left out with the drawing.
pub mod Laws
pub mod Keys
use soulvpn.Base.{
  ℕ, zero, suc, ◌-◌, ◌*◌, Bool, true, false, Option, none, some, leb, ◌==◌, if◌then◌else◌, Result,
  ok, err, Error, String,
}
use soulvpn.Base.Actions.{Action, ◌>>=◌, ◌>>◌, pure}
use soulvpn.Config.Chars.{Text}
use soulvpn.Stats.{StatusSnapshot}
use soulvpn.Control.{Json}
use soulvpn.Control.Ask.{Stream, request}

-- `KeyCode`: a character, the escape key, or another one.
pub data KeyCode : Type 0 where
  char : ℕ → KeyCode
  esc : KeyCode
  other_key : KeyCode

-- `Event`: a key that is pressed, or, by the flag, repeated or released; or another event.
pub data Event : Type 0 where
  key : KeyCode → Bool → Event
  other_event : Event

-- What is called of `crossterm`, `ratatui`, the clock and the control socket. `draw` shows a snapshot, an
-- error and a message; `poll` says whether an event comes within 250 ms.
pub record Screen : Type 1 where
  pub World : Type 0
  pub enable_raw_mode : Action World (Unit {0})
  pub enter_alternate : Action World (Unit {0})
  pub new_terminal : Action World (Unit {0})
  pub disable_raw_mode : Action World (Unit {0})
  pub leave_alternate : Action World (Unit {0})
  pub show_cursor : Action World (Unit {0})
  pub draw : StatusSnapshot → Option Error → Option String → Action World (Unit {0})
  pub poll : Action World Bool
  pub read : Action World Event
  pub instant : World → ℕ
  pub json : Json
  pub connect : Text → Action World (Stream World)

pub record Ui : Type 0 where
  pub snap : StatusSnapshot
  pub last_poll : ℕ
  pub err_text : Option Error
  pub msg : Option String

-- 500 ms in nanoseconds.
abbrev pub tick : ℕ
tick = 500 * 1000000

module _ (s : Screen) (socket : Text) where
  abbrev pub ask : String → s.World → s.World × Result StatusSnapshot
  ask op = request s.json s.connect socket op

  -- `match` on the answer to an operation.
  abbrev pub answered :
      (StatusSnapshot → String) → Ui → s.World × Result StatusSnapshot → s.World × Ui
  answered text ui (w, ok snap) =
      (w, record ui { snap = snap; msg = some (text snap); err_text = none })
  answered text ui (w, err e) = (w, record ui { err_text = some e })

  abbrev pub going : s.World × Ui → s.World × Ui × Bool
  going (w, ui) = (w, ui, true)

  abbrev pub switched_text : StatusSnapshot → String
  switched_text snap = if snap.enabled then "tunnel enabled" else "tunnel disabled"

  abbrev pub on_char : ℕ → Ui → s.World → s.World × Ui × Bool
  on_char c ui w =
      if c == 113
      then (w, ui, false)
      else if c == 111
      then going (answered (λ snap. "tunnel enabled") ui (ask "on" w))
      else if c == 102
      then going (answered (λ snap. "tunnel disabled") ui (ask "off" w))
      else if c == 32
      then going (answered switched_text ui (ask (if ui.snap.enabled then "off" else "on") w))
      else if c == 114
      then (w, record ui { last_poll = s.instant w - tick; msg = some "refresh" }, true)
      else (w, ui, true)

  -- What a key does, and whether the loop goes on.
  unfoldable pub on_key : KeyCode → Ui → s.World → s.World × Ui × Bool
  on_key (char c) ui w = on_char c ui w
  on_key esc ui w = (w, ui, false)
  on_key other_key ui w = (w, ui, true)

  abbrev pub polled : Ui → s.World × Result StatusSnapshot → s.World × Ui
  polled ui (w, ok snap) = (w, record ui { snap = snap; err_text = none; last_poll = s.instant w })
  polled ui (w, err e) = (w, record ui { err_text = some e; last_poll = s.instant w })

  unfoldable pub poll_status : Ui → s.World → s.World × Ui
  poll_status ui w =
      if leb tick (s.instant w - ui.last_poll) then polled ui (ask "status" w) else (w, ui)

  abbrev pub on_event : Ui → Event → Action s.World (Ui × Bool)
  on_event ui (key code true) w = let (w', ui', goes) = on_key code ui w in (w', ok (ui', goes))
  on_event ui (key code false) w = (w, ok (ui, true))
  on_event ui other_event w = (w, ok (ui, true))

  abbrev pub next_event : Ui → Bool → Action s.World (Ui × Bool)
  next_event ui true w = (s.read >>= on_event ui) w
  next_event ui false w = (w, ok (ui, true))

  -- One turn of the loop, and whether there is another.
  unfoldable pub turn : Ui → Action s.World (Ui × Bool)
  turn ui w =
      let (w', ui') = poll_status ui w in
      (s.draw ui'.snap ui'.err_text ui'.msg >> (s.poll >>= next_event ui')) w'

  abbrev pub after_turn :
      (Ui → s.World → s.World × Option (Result (Unit {0})))
      → s.World × Result (Ui × Bool)
      → s.World × Option (Result (Unit {0}))
  after_turn next (w, ok (ui, true)) = next ui w
  after_turn next (w, ok (ui, false)) = (w, some (ok tt))
  after_turn next (w, err e) = (w, some (err e))

  -- The first turns of the loop: `none` while it runs.
  unfoldable pub ui_loop : ℕ → Ui → s.World → s.World × Option (Result (Unit {0}))
  ui_loop zero ui w = (w, none)
  ui_loop (suc turns) ui w = after_turn (ui_loop turns) (turn ui w)

  -- Lines 82-85.
  abbrev pub give_back : Result (Unit {0}) → Action s.World (Unit {0})
  give_back result = do s.disable_raw_mode; s.leave_alternate; s.show_cursor; λ w. (w, result)

  abbrev pub after_loop :
      s.World × Option (Result (Unit {0})) → s.World × Option (Result (Unit {0}))
  after_loop (w, none) = (w, none)
  after_loop (w, some result) = let (w', r) = give_back result w in (w', some r)

  abbrev pub set_up : Action s.World (Unit {0})
  set_up = do s.enable_raw_mode; s.enter_alternate; s.new_terminal

  abbrev pub begin : s.World × Result StatusSnapshot → s.World × Result StatusSnapshot
  begin (w, ok first) = (set_up >> pure first) w
  begin (w, err e) = (w, err e)

  abbrev pub with_loop : ℕ → s.World × Result StatusSnapshot → s.World × Option (Result (Unit {0}))
  with_loop turns (w, err e) = (w, some (err e))
  with_loop turns (w, ok first) = after_loop (
      ui_loop turns
        (record { snap = first; last_poll = s.instant w - tick; err_text = none; msg = none }) w)

  unfoldable pub run : ℕ → s.World → s.World × Option (Result (Unit {0}))
  run turns w = with_loop turns (begin (ask "status" w))
