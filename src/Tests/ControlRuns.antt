-- ===== src/Tests/ControlRuns.antt =====
-- Runs of src/control.rs.
use soulvpn.Base.{
  ℕ, length, ◌≡◌, refl, true, false, none, List, [], ◌∷◌, ◌++◌, replicate, length-replicate,
  if◌then◌else◌, list_beq, ok, err, bail, arith, codes, v4, SocketAddr, text_eq,
}
use soulvpn.Stats.{Clock, RuntimeStats, new, client, snapshot}
use soulvpn.Control.{Json, Response, dispatch, exchange}
use soulvpn.Control.Laws.{differs, exchange-toggle, exchange_too_long}
use soulvpn.Control.Serve.{accept, accept_error, changed, serve_loop}
use soulvpn.Crypto.Replay.{default}
use soulvpn.Crypto.Session.{Session, header}
use soulvpn.Server.Run.{start}
use soulvpn.Server.Downlink.{on_data}
use soulvpn.Server.Uplink
use soulvpn.Client
use soulvpn.Client.{Client}
use soulvpn.Tests.Toy.{toy}
use soulvpn.Control.Effect.{off-silent}

abbrev pub addr : SocketAddr
addr = record { ip = v4 3405803777; port = 51820 }

abbrev pub now : Clock
now = record { instant = 30000000000; wall_ms = 1700000000000 }

unfoldable pub stats : RuntimeStats
unfolding new
stats = new client addr (codes "10.66.66.2/24") (codes "soulvpn") now

-- Texts for the three operations, and one text for the response of the run.
abbrev pub json : List ℕ → Response → Json
json text resp = record {
  request_to_vec = λ r. codes r.op;
  request_from_slice = λ bytes.
      if list_beq bytes (codes "on")
      then ok (record { op = "on" })
      else if list_beq bytes (codes "off")
      then ok (record { op = "off" })
      else ok (record { op = "reset" });
  response_to_vec = λ r. text;
  response_from_slice = λ bytes. ok resp;
}

unfoldable pub told : Response
unfolding dispatch
told = (dispatch 42 now stats (record { op = "off" })).response

exchange-toggle_example :
    let r = exchange (json (123 ∷ []) told) 42 now stats "off" in
    (r.0.enabled ≡ false)
    × (r.1 ≡ (if differs false stats.enabled then false ∷ [] else []))
    × (r.2 ≡ ok (snapshot 42 now r.0))
    × ((snapshot 42 now r.0).enabled ≡ false)
unfolding dispatch list_beq stats told
exchange-toggle_example =
    exchange-toggle (json (123 ∷ []) told) 42 now stats false ((omega arith, omega arith), refl)
      ((omega arith, omega arith), refl)

unfoldable long : ℕ → List ℕ
long n = replicate n 32

length-long : (n : ℕ) → length (long n) ≡ n
unfolding long
length-long n = length-replicate n 32

exchange_too_long_example :
    let r = exchange (json (long 1048577) told) 42 now stats "off" in
    (r.0.enabled ≡ false) × (r.2 ≡ err (bail "invalid control frame length"))
unfolding list_beq
exchange_too_long_example =
    exchange_too_long (json (long 1048577) told) 42 now stats false
      ((omega arith, omega arith), refl) (rw (length-long 1048577) (omega arith))
      (rw (length-long 1048577) (omega arith))

abbrev pub session : Session toy
session = record {
  index = 7;
  transport = record { sending = 0; receiving = 0; remote = none };
  send_nonce = 0;
  replay = default;
}

abbrev pub connected : Client toy
connected = record {
  slot = record { session = session; established = 0; last_rx = 0; last_tx = 0 };
  stats = stats;
}

abbrev packet : List ℕ
packet = header 7 0 ++ (1 ∷ 2 ∷ (0 ∷ replicate 15 0))

off-silent_example :
    let sv = start {n = toy} ((9 ∷ [], 168296450) ∷ []) 10 60 stats in
    let j = json (123 ∷ []) told in
    let sv' = record sv { stats = (exchange j 42 now sv.stats "off").0 } in
    let c' = record connected { stats = (exchange j 42 now connected.stats "off").0 } in
    ((on_data sv' packet addr now true).outputs ≡ [])
    × ((Uplink.on_tun sv' packet now true).outputs ≡ [])
    × ((Client.on_udp c' packet now true).outputs ≡ [])
    × ((Client.on_tun c' packet now true).outputs ≡ [])
unfolding dispatch list_beq start stats told
off-silent_example =
    off-silent (json (123 ∷ []) told) 42 now
      (start {n = toy} ((9 ∷ [], 168296450) ∷ []) 10 60 stats) connected packet packet addr now true
      ((omega arith, omega arith), refl) ((omega arith, omega arith), refl)
      ((omega arith, omega arith), refl)

-- A request, an error of the socket, a second request, the end, and one that comes behind it.
serve_loop_run :
    serve_loop
      (accept now (1 ∷ []) ∷ accept_error ∷ accept now [] ∷ changed true ∷ accept now [] ∷ [])
    ≡ record { begun = now; stream = 1 ∷ [] } ∷ record { begun = now; stream = [] } ∷ []
unfolding serve_loop
serve_loop_run = refl
