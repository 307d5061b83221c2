-- ===== src/Tests/ClientRuns.antt =====
-- Concrete runs of the client, src/client.rs.
use soulvpn.Base.{
  codes, ℕ, zero, suc, ◌≡◌, ◌≢◌, refl, true, none, some, List, [], ◌∷◌, ◌++◌, replicate,
  if◌then◌else◌, ◌==◌, ok, v4, SocketAddr, from_le_bytes,
}
use soulvpn.Crypto.Replay.{default}
use soulvpn.Crypto.Session.{Session, from_transport, header}
use soulvpn.Crypto.Handshake.{initiator_new, write_init, initiator_finish}
use soulvpn.Stats.{Clock, RuntimeStats, new, client}
use soulvpn.Client.{Client, Attempt, no_answer, answered, attempts, handshake, on_udp}
use soulvpn.Client.Laws.{Authentic, on_udp-Authentic}
use soulvpn.Client.Gate.{
  Step, Link, Reach, Unanswered, receiving, ready, here, later, send_held, arrive, downlink_takes,
  downlink_waits, time_out, net_of, Reach-starved, in_line, Stuck, Reach-Stuck, silent,
}
use soulvpn.Tests.Toy.{toy}

abbrev server_addr : SocketAddr
server_addr = record { ip = v4 3405803777; port = 51820 }

abbrev now : Clock
now = record { instant = 30000000000; wall_ms = 1700000000000 }

abbrev stats : RuntimeStats
unfolding new
stats = new client server_addr (codes "10.66.66.2/24") (codes "soulvpn") now

abbrev session : Session toy
session = record {
  index = 7;
  transport = record { sending = 0; receiving = 0; remote = none };
  send_nonce = 0;
  replay = default;
}

abbrev connected : Client toy
connected = record {
  slot = record { session = session; established = 0; last_rx = 0; last_tx = 0 };
  stats = stats;
}

abbrev packet : List ℕ
packet = header 7 0 ++ (1 ∷ 2 ∷ (0 ∷ replicate 15 0))

on_udp-Authentic_example : Authentic connected packet (on_udp connected packet now true).outputs
on_udp-Authentic_example = on_udp-Authentic connected packet now true

-- No answer to the first message, and one to the second.
abbrev net : ℕ → List ℕ → Attempt
net attempt msg = if attempt == 2 then answered (2 ∷ 7 ∷ 0 ∷ 0 ∷ 0 ∷ 7 ∷ []) else no_answer

abbrev made : Session toy
made = from_transport {n = toy} 7 (record { sending = 0; receiving = 0; remote = some (7 ∷ []) })

shaken : handshake toy [] (9 ∷ []) net ≡ ok made
unfolding handshake attempts initiator_new write_init initiator_finish from_le_bytes
shaken = refl

-- Ten attempts, each of which the server answers.
abbrev waited : ℕ → List Attempt
waited zero = []
waited (suc k) = waited k ++ no_answer ∷ []

abbrev at_rest : List Attempt → Link
at_rest results = record { down = receiving; up = ready; due = 0; arrived = []; results = results }

one_attempt :
    (results : List Attempt) → Reach (at_rest results) → Reach (at_rest (results ++ no_answer ∷ []))
one_attempt results before =
    later
      (later
        (later (later (later before (send_held refl refl)) (arrive (2 ∷ 7 ∷ []) 0 refl))
          (downlink_takes (2 ∷ 7 ∷ []) [] refl refl))
        (downlink_waits refl refl))
      (time_out refl refl refl)

attempts_made : (k : ℕ) → Reach (at_rest (waited k))
attempts_made zero = here
attempts_made (suc k) = one_attempt (waited k) (attempts_made k)

Reach-starved_example :
    Unanswered (waited 10) × (handshake toy (9 ∷ []) (8 ∷ []) (net_of (waited 10)) ≢ ok session)
Reach-starved_example =
    Reach-starved toy (9 ∷ []) (8 ∷ []) (at_rest (waited 10)) (attempts_made 10) session

Reach-Stuck_example :
    (sent : Link) × (lost : Link) × Step silent sent
    × (sent.up ≡ in_line)
    × (sent.due ≡ 1)
    × Step sent lost
    × (lost ≡ record sent { due = 0 })
    × Stuck lost
Reach-Stuck_example = Reach-Stuck silent here refl refl
