-- ===== src/Control/Ask.antt =====
-- src/control.rs, `request` (lines 156-172), with the connection under it. `connect` gives the stream: what
-- comes back for the bytes that are written.
pub mod Laws
use soulvpn.Base.{ℕ, List, String, Result}
use soulvpn.Base.Actions.{Action, ◌>>=◌}
use soulvpn.Config.Chars.{Text}
use soulvpn.Devices.{at}
use soulvpn.Stats.{StatusSnapshot}
use soulvpn.Control.{Json, request_bytes, read_reply}

abbrev pub Stream : Type 0 → Type 0
Stream W = List ℕ → Action W (List ℕ)

unfoldable pub request :
    {W : Type 0} → Json → (Text → Action W (Stream W)) → Text → String → Action W StatusSnapshot
request json connect path op = do
  stream ← λ w. at "connect control socket (is soulvpn running as the same user?)" (connect path w)
  reply ← stream (request_bytes json op)
  λ w. (w, read_reply json reply)
