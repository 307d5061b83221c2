-- ===== src/Tests/CryptoRuns.antt =====
-- Concrete runs of the session layer, src/crypto.rs.
use soulvpn.Base.{
  ℕ, ◌%◌, ◌≡◌, ◌≢◌, refl, some, List, [], ◌∷◌, ◌++◌, drop, map, ok, err, bail, context, arith,
  ◌>>=◌, to_le_bytes, from_le_bytes, list_beq,
}
use soulvpn.Crypto.Replay.{default, run}
use soulvpn.Crypto.Replay.Refines.{spec_run, run-default-spec, default-Refines}
use soulvpn.Crypto.Session.{Session, header_index, header_nonce, from_transport, decrypt}
use soulvpn.Crypto.Session.Laws.{Flight, packet_of, IsReceiver}
use soulvpn.Crypto.Session.Delivery.{
  decrypt_all, encrypt_all, delivered, AllGenuine, AllFit, decrypt_all-delivered,
  decrypt_all-encrypt_all,
}
use soulvpn.Crypto.Session.Forged.{after_all, forged-blocks}
use soulvpn.Crypto.Handshake.{initiator_finish, responder_finish}
use soulvpn.Crypto.Handshake.Laws.{initiator_finish-responder_finish, noise_finish}
use soulvpn.Tests.Toy.{Toy, toy, toy_laws, read_body}

abbrev nonces : List ℕ
nonces = 5 ∷ 3 ∷ 5 ∷ 2000 ∷ 5 ∷ 977 ∷ 976 ∷ []

run-default-spec_example : (run default nonces).1 ≡ spec_run [] nonces
run-default-spec_example = run-default-spec nonces

abbrev transport : Toy
transport = record { sending = 0; receiving = 0; remote = some (9 ∷ []) }

abbrev session : Session toy
session = record { index = 7; transport = transport; send_nonce = 0; replay = default }

abbrev flight : ℕ → ℕ → Flight
flight c byte = record {
  nonce = c;
  plain = byte ∷ [];
  ct = byte ∷ c % 256 ∷ 0 ∷ 0 ∷ 0 ∷ 0 ∷ 0 ∷ 0 ∷ 0 ∷ 0 ∷ 0 ∷ 0 ∷ 0 ∷ 0 ∷ 0 ∷ 0 ∷ 0 ∷ [];
}

abbrev flights : List Flight
flights = flight 2 40 ∷ flight 0 41 ∷ flight 2 40 ∷ []

receiver : IsReceiver toy_laws session []
receiver = record { index_lt = omega arith; window = default-Refines }

genuine : AllGenuine toy_laws transport 65535 flights
genuine = (
  record { nonce_lt = omega arith; fits = omega arith; sealed = refl },
  (
    record { nonce_lt = omega arith; fits = omega arith; sealed = refl },
    (record { nonce_lt = omega arith; fits = omega arith; sealed = refl }, tt),
  ),
)

decrypt_all-delivered_example :
    decrypt_all session 65535 (map (packet_of 7) flights) ≡ delivered [] flights
decrypt_all-delivered_example = decrypt_all-delivered toy_laws flights 65535 receiver genuine

abbrev plains : List (List ℕ)
plains = (1 ∷ 2 ∷ []) ∷ [] ∷ (3 ∷ []) ∷ []

all_fit : AllFit toy_laws 65535 65535 plains
all_fit = (
  (omega arith, omega arith, omega arith),
  ((omega arith, omega arith, omega arith), ((omega arith, omega arith, omega arith), tt)),
)

decrypt_all-encrypt_all_example :
    (packets : List (List ℕ)) × (encrypt_all session 65535 plains ≡ map ok packets)
    × (decrypt_all (from_transport {n = toy} 7 transport) 65535 packets ≡ map ok plains)
decrypt_all-encrypt_all_example =
    decrypt_all-encrypt_all toy_laws plains session transport 65535 65535 (omega arith) refl
      (omega arith) all_fit

abbrev no_tag : List ℕ
no_tag = 0 ∷ 0 ∷ 0 ∷ 0 ∷ 0 ∷ 0 ∷ 0 ∷ 0 ∷ 0 ∷ 0 ∷ 0 ∷ 0 ∷ 0 ∷ 0 ∷ 0 ∷ 0 ∷ []

-- A forged packet with the nonce 5000.
abbrev forged : List ℕ
forged = 7 ∷ 0 ∷ 0 ∷ 0 ∷ 136 ∷ 19 ∷ 0 ∷ 0 ∷ 0 ∷ 0 ∷ 0 ∷ 0 ∷ no_tag

abbrev genuine_packet : List ℕ
genuine_packet = 7 ∷ 0 ∷ 0 ∷ 0 ∷ 0 ∷ 0 ∷ 0 ∷ 0 ∷ 0 ∷ 0 ∷ 0 ∷ 0 ∷ no_tag

forged_header : (header_index forged ≡ 7) × (header_nonce forged ≡ 5000)
unfolding from_le_bytes
forged_header = (refl, refl)

genuine_header : (header_index genuine_packet ≡ 7) × (header_nonce genuine_packet ≡ 0)
unfolding from_le_bytes
genuine_header = (refl, refl)

forged_fails :
    (toy.read_message
      (toy.set_receiving_nonce transport (header_nonce forged))
      (drop 12 forged)
      65535).1
    ≡ err (bail "tag")
unfolding from_le_bytes read_body list_beq
forged_fails = refl

-- The forged packet once more, and one that is too short, come between.
forged-blocks_example :
    ((decrypt session forged 65535).1 ≡ err (context "noise decrypt" (bail "tag")))
    × ((decrypt
          (after_all (decrypt session forged 65535).0 65535 (forged ∷ [] ∷ []))
          genuine_packet
          65535).1
        ≡ err (bail "replayed or stale nonce"))
forged-blocks_example =
    forged-blocks session [] forged genuine_packet (forged ∷ [] ∷ []) 65535 (bail "tag")
      default-Refines (omega arith) forged_header.0 (omega (arith, forged_header.1)) forged_fails
      (omega arith) genuine_header.0 (omega (arith, forged_header.1, genuine_header.1))

abbrev chosen : ℕ
chosen = 258

abbrev response : List ℕ
response = 2 ∷ (to_le_bytes 4 258 ++ (7 ∷ []))

abbrev answered_session : Session toy
answered_session =
    from_transport {n = toy} 258 (record { sending = 0; receiving = 0; remote = some (9 ∷ []) })

responded : responder_finish toy [] (1 ∷ 9 ∷ []) 258 ≡ ok (answered_session, response)
unfolding responder_finish
responded = refl

initiator_finish-responder_finish_example :
    (chosen ≢ 0)
    × (answered_session.index ≡ 258)
    × ((m : List ℕ) × (response ≡ 2 ∷ (to_le_bytes 4 258 ++ m))
        × (initiator_finish toy (8 ∷ []) response ≡ (
            noise_finish toy (8 ∷ []) m >>= λ t.
            ok (from_transport {n = toy} answered_session.index t))))
unfolding from_transport
initiator_finish-responder_finish_example =
    initiator_finish-responder_finish toy [] (8 ∷ []) (1 ∷ 9 ∷ []) 258 answered_session response
      (omega arith) responded
