-- ===== src/Control/Serve.antt =====
-- src/control.rs, `serve` (lines 43-95): the socket's set-up, the loop over what happens at it, and its
-- end. The files and the socket are the parameter `Sockets`. Each connection has a task of its own, which
-- runs `handle_client`; the tasks are what the loop gives.
use soulvpn.Base.{ℕ, Bool, Option, none, some, List, [], ◌∷◌, if◌then◌else◌, ok}
use soulvpn.Base.Actions.{Action, ◌>>◌}
use soulvpn.Config.Chars.{Text}
use soulvpn.Devices.{at}
use soulvpn.Stats.{Clock}
use soulvpn.Control.{resolve_control_mode}

-- `mode_var` is the variable SOULVPN_CONTROL_MODE. A removed file is gone or was not there: an error
-- is ignored.
pub record Sockets : Type 1 where
  pub World : Type 0
  pub mode_var : World → Option Text
  pub parent : Text → Option Text
  pub create_dir_all : Text → Action World (Unit {0})
  pub remove_file : Text → World → World
  pub bind : Text → Action World (Unit {0})
  pub set_permissions : Text → ℕ → Action World (Unit {0})

-- What the loop waits for: a connection, with what its other side sends, an error of `accept`, or a change
-- of `shutdown` with its new value.
pub data Event : Type 0 where
  accept : Clock → List ℕ → Event
  accept_error : Event
  changed : Bool → Event

-- A task for a connection: when it was accepted, and what its other side sends.
pub record Task : Type 0 where
  pub begun : Clock
  pub stream : List ℕ

-- The loop: the tasks that it starts, in their order. A change of `shutdown` to true ends it.
unfoldable pub serve_loop : List Event → List Task
serve_loop [] = []
serve_loop (accept now stream ∷ events) =
    record { begun = now; stream = stream } ∷ serve_loop events
serve_loop (accept_error ∷ events) = serve_loop events
serve_loop (changed down ∷ events) = let rest = serve_loop events in if down then [] else rest

module _ (sockets : Sockets) where
  abbrev pub create_parent : Option Text → Action sockets.World (Unit {0})
  create_parent none w = (w, ok tt)
  create_parent (some dir) w = at "create control dir" (sockets.create_dir_all dir w)

  -- Lines 50-67.
  unfoldable pub listen : Text → ℕ → Action sockets.World (Unit {0})
  listen path mode = do
    create_parent (sockets.parent path)
    λ w. (sockets.remove_file path w, ok tt)
    λ w. at "bind control socket" (sockets.bind path w)
    λ w.
        at "set control socket mode"
          (sockets.set_permissions path (resolve_control_mode (sockets.mode_var w) mode) w)

  -- The whole: the tasks of the loop, where the set-up succeeds.
  unfoldable pub serve : Text → ℕ → List Event → Action sockets.World (List Task)
  serve path mode events = do
    listen path mode
    λ w. (sockets.remove_file path w, ok (serve_loop events))
