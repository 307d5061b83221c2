-- ===== src/Crypto/Noise.antt =====
-- The `snow` crate as src/crypto.rs uses it: an interface, with what its documentation promises of
-- a transport pair as named laws.
use soulvpn.Base.{ℕ, ◌+◌, ◌^◌, ◌≤◌, ◌<◌, ◌≡◌, Option, Result, ok, List, length}

-- `Transport` is `TransportState` and `Handshake` is `HandshakeState`. The calls that take
-- `&mut self` return the state after them beside the result, also when they fail; the room is the
-- length of the buffer that a call writes to, and the bytes returned are those written to it.
pub record Noise : Type 1 where
  pub Transport : Type 0
  pub Handshake : Type 0
  pub write_message : Transport → List ℕ → ℕ → Transport × Result (List ℕ)
  pub set_receiving_nonce : Transport → ℕ → Transport
  pub read_message : Transport → List ℕ → ℕ → Transport × Result (List ℕ)
  pub get_remote_static : Transport → Option (List ℕ)
  pub build_initiator : List ℕ → List ℕ → Result Handshake
  pub build_responder : List ℕ → Result Handshake
  pub handshake_write : Handshake → List ℕ → ℕ → Handshake × Result (List ℕ)
  pub handshake_read : Handshake → List ℕ → ℕ → Handshake × Result (List ℕ)
  pub into_transport_mode : Handshake → Result Transport

-- What is relied on of transport states. `Linked a c b`: `a` sends its next message under nonce
-- `c`, with the key by which `b` receives. `Sealed b c plain ct`: `ct` is `plain` under nonce `c`
-- and that key.
pub record NoiseLaws (n : Noise) : Type 1 where
  pub Linked : n.Transport → ℕ → n.Transport → Type 0
  pub Sealed : n.Transport → ℕ → List ℕ → List ℕ → Type 0
  -- Sending succeeds within the limits of a Noise message, and the nonce counts up.
  pub write_seals :
      (a b : n.Transport) (c : ℕ) (plain : List ℕ) (room : ℕ)
      → Linked a c b
      → c + 1 < 2 ^ 64
      → length plain ≤ 65519
      → length plain + 16 ≤ room
      → (a' : n.Transport) × (ct : List ℕ) × (n.write_message a plain room ≡ (a', ok ct))
        × Linked a' (c + 1) b
        × Sealed b c plain ct
  -- The tag has 16 bytes.
  pub sealed_length :
      (b : n.Transport) (c : ℕ) (plain ct : List ℕ)
      → Sealed b c plain ct
      → length ct ≡ length plain + 16
  -- A receiver that is told the nonce reads the plaintext into any buffer with room for it.
  pub sealed_opens :
      (b : n.Transport) (c : ℕ) (plain ct : List ℕ) (room : ℕ)
      → Sealed b c plain ct
      → length plain ≤ room
      → (n.read_message (n.set_receiving_nonce b c) ct room).1 ≡ ok plain
  -- What a receiver reads, or fails to read, does not change its key.
  pub sealed_read :
      (b : n.Transport) (c : ℕ) (plain ct : List ℕ) (k : ℕ) (other : List ℕ) (room : ℕ)
      → Sealed b c plain ct
      → Sealed (n.read_message (n.set_receiving_nonce b k) other room).0 c plain ct
