-- ===== src/Control/Ask/Laws.antt =====
-- A request over a connection whose other side is `handle_client`.
use soulvpn.Base.{ℕ, ◌≡◌, refl, Result, ok, err, ◌>>=◌, String}
use soulvpn.Base.Actions.{Action, and_then}
use soulvpn.Config.Chars.{Text}
use soulvpn.Stats.{Clock, RuntimeStats}
use soulvpn.Control.{Json, handle_client, request_bytes, read_reply, exchange}
use soulvpn.Control.Ask.{Stream, request}

read_after :
    {W A B : Type 0} (w : W) (r : Result A) (f : A → Result B)
    → and_then (λ a. λ w'. (w', f a)) (w, r) ≡ (w, r >>= f)
read_after w (ok a) f = refl
read_after w (err e) f = refl

-- The stream answers the request as `handle_client` does, and leaves the given world.
abbrev pub Answers :
    {W : Type 0} → Json → ℕ → Clock → RuntimeStats → String → Stream W → W → W → Type 0
Answers json pid now stats op stream w w' =
    stream (request_bytes json op) w
    ≡ (w', (handle_client json pid now stats (request_bytes json op)).2)

pub request-exchange :
    {W : Type 0} (json : Json) (connect : Text → Action W (Stream W)) (pid : ℕ) (now : Clock)
    (stats : RuntimeStats) (op : String) (path : Text) (stream : Stream W) (w w' w'' : W)
    → connect path w ≡ (w', ok stream)
    → Answers json pid now stats op stream w' w''
    → request json connect path op w ≡ (w'', (exchange json pid now stats op).2)
unfolding request exchange
request-exchange json connect pid now stats op path stream w w' w'' reached answered =
    let written = (handle_client json pid now stats (request_bytes json op)).2 in
    simp (reached, answered) (read_after w'' written (read_reply json))
