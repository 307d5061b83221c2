-- ===== src/Tests/MonitorRuns.antt =====
-- Runs of src/monitor.rs and of the texts of src/stats.rs.
use soulvpn.Base.{
  ◌-◌, ◌≡◌, refl, Bool, true, false, none, some, [], ◌∷◌, ok, list_beq, to_le_bytes, from_le_bytes,
  arith,
}
use soulvpn.Stats.{StatusSnapshot, snapshot, set_enabled, new, as_secs}
use soulvpn.Stats.Format.{format_duration}
use soulvpn.Stats.Format.Laws.{read_duration, read_duration-format_duration}
use soulvpn.Control.{
  dispatch, exchange, handle_client, read_msg, read_exact, request_bytes, write_msg, read_reply,
}
use soulvpn.Control.Ask.{request}
use soulvpn.Monitor.{Screen, Ui, char, key, tick, on_key, ui_loop, run}
use soulvpn.Monitor.Laws.{ScreenLaws, Ended, run-Ended}
use soulvpn.Monitor.Keys.{shown, on_key-exchange}
use soulvpn.Tests.ControlRuns.{json, told, stats, now}

-- Raw mode, and the alternate screen.
pub record Tty : Type 0 where
  pub raw : Bool
  pub alternate : Bool

-- A user who quits at once, and a daemon that answers as `handle_client` does.
abbrev screen : Screen
screen = record {
  World = Tty;
  enable_raw_mode = λ w. (record w { raw = true }, ok tt);
  enter_alternate = λ w. (record w { alternate = true }, ok tt);
  new_terminal = λ w. (w, ok tt);
  disable_raw_mode = λ w. (record w { raw = false }, ok tt);
  leave_alternate = λ w. (record w { alternate = false }, ok tt);
  show_cursor = λ w. (w, ok tt);
  draw = λ snap e msg w. (w, ok tt);
  poll = λ w. (w, ok true);
  read = λ w. (w, ok (key (char 113) true));
  instant = λ w. 60000000000;
  json = json (123 ∷ []) told;
  connect = λ path w.
      (w, ok (λ bytes w'. (w', (handle_client (json (123 ∷ []) told) 42 now stats bytes).2)));
}

screen_laws : ScreenLaws screen
screen_laws = record {
  is_raw = λ w. w.raw;
  is_alternate = λ w. w.alternate;
  raw-enable = λ w done. refl;
  raw-enter = λ w. refl;
  raw-disable = λ w done. refl;
  raw-leave = λ w. refl;
  raw-show = λ w. refl;
  alternate-leave = λ w done. refl;
  alternate-show = λ w. refl;
}

abbrev plain : Tty
plain = record { raw = false; alternate = false }

abbrev taken : Tty
taken = record { raw = true; alternate = true }

abbrev first : StatusSnapshot
unfolding snapshot
first = snapshot 42 now (set_enabled false now stats)

run-Ended_example :
    let ui : Ui = record {
      snap = first;
      last_poll = 60000000000 - tick;
      err_text = none;
      msg = none;
    } in
    Ended screen_laws [] (ui_loop screen [] 1 ui taken) (run screen [] 1 plain)
unfolding dispatch list_beq snapshot request handle_client read_msg read_exact request_bytes
    write_msg to_le_bytes from_le_bytes read_reply stats told set_enabled new
run-Ended_example =
    run-Ended screen_laws [] 1 plain taken first
      (record { disables = λ w. refl; leaves = λ w. refl; shows = λ w. refl }) refl

abbrev looking : Ui
unfolding snapshot
looking = record { snap = snapshot 42 now stats; last_poll = 0; err_text = none; msg = none }

-- Space, on the screen of a tunnel that is on.
on_key-exchange_example :
    let after = (exchange (json (123 ∷ []) told) 42 now stats "off").0 in
    (after.enabled ≡ false)
    × (on_key screen [] (char 32) looking taken
        ≡ (taken, shown looking (snapshot 42 now after), true))
unfolding dispatch list_beq snapshot stats told new
on_key-exchange_example =
    on_key-exchange screen [] 42 now stats (char 32) looking false
      (λ bytes w'. (w', (handle_client (json (123 ∷ []) told) 42 now stats bytes).2)) taken taken
      taken refl ((omega arith, omega arith), refl) ((omega arith, omega arith), refl) refl refl

read_duration-format_duration_example :
    read_duration (format_duration 3723000000000) ≡ some (as_secs 3723000000000)
read_duration-format_duration_example = read_duration-format_duration 3723000000000 (omega arith)
