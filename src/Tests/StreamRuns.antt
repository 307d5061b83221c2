-- ===== src/Tests/StreamRuns.antt =====
-- Packets of one session that reach the server out of order, twice, and from two addresses.
use soulvpn.Base.{ℕ, ◌≡◌, refl, List, [], ◌∷◌, ◌++◌, ◌%◌, replicate, arith, v4, SocketAddr}
use soulvpn.Crypto.Replay.Refines.{default-Refines}
use soulvpn.Crypto.Session.{max_message}
use soulvpn.Crypto.Session.Laws.{Flight, IsReceiver}
use soulvpn.Crypto.Session.Delivery.{AllGenuine, delivered}
use soulvpn.Server.Downlink.Stream.{
  IsLive, Arrival, flights, forwarded_all, on_udp_all, on_udp_all-delivered,
}
use soulvpn.Tests.Toy.{toy_laws}
use soulvpn.Tests.ServerRuns.{src, now, inner, peer_ip, live, busy, known, enabled}

abbrev flight : ℕ → List ℕ → Flight
flight c plain = record { nonce = c; plain = plain; ct = plain ++ c % 256 ∷ replicate 15 0 }

abbrev elsewhere : SocketAddr
elsewhere = record { ip = v4 3405803778; port = 40001 }

-- A packet, a keepalive that was sent before it, the first once more, and one that is no IPv4 packet.
abbrev arrivals : List Arrival
arrivals =
    record { flight = flight 2 inner; src = src; now = now }
    ∷ record { flight = flight 0 []; src = elsewhere; now = now }
    ∷ record { flight = flight 2 inner; src = src; now = now }
    ∷ record { flight = flight 3 (1 ∷ []); src = src; now = now }
    ∷ []

is_live : IsLive busy live
is_live = record { known = known; no_init = λ e. omega arith; server_on = enabled }

receiver : IsReceiver toy_laws live.session []
receiver = record { index_lt = omega arith; window = default-Refines }

genuine : AllGenuine toy_laws live.session.transport max_message (flights arrivals)
genuine = (
  record { nonce_lt = omega arith; fits = omega arith; sealed = refl },
  (
    record { nonce_lt = omega arith; fits = omega arith; sealed = refl },
    (
      record { nonce_lt = omega arith; fits = omega arith; sealed = refl },
      (record { nonce_lt = omega arith; fits = omega arith; sealed = refl }, tt),
    ),
  ),
)

on_udp_all-delivered_example :
    on_udp_all [] busy 7 arrivals ≡ forwarded_all peer_ip (delivered [] (flights arrivals))
on_udp_all-delivered_example = on_udp_all-delivered toy_laws [] arrivals is_live receiver genuine
