-- ===== src/Crypto/Handshake.antt =====
-- src/crypto.rs, `random_session_index`, `HandshakeInitiator` and `HandshakeResponder` (lines 46-55 and
-- 212-283). The Noise pattern itself is the parameter; a handshake state is consumed by `finish`.
pub mod Laws
use soulvpn.Base.{
  ℕ, ◌+◌, ◌-◌, Bool, not, Option, none, some, List, [], ◌∷◌, ◌++◌, length, take, drop, ltb, ◌==◌,
  if◌then◌else◌, Result, ok, err, bail, bail_if, to_le_bytes, from_le_bytes, ◌>>=◌, ◌>>◌,
}
use soulvpn.Crypto.Noise.{Noise}
use soulvpn.Crypto.Session.{Session, from_transport, max_message}

-- The random generator is the list of its next four-byte draws; `none` if they do not suffice.
unfoldable pub random_session_index : List (List ℕ) → Option (ℕ × List (List ℕ))
random_session_index [] = none
random_session_index (b ∷ draws) =
    let v = from_le_bytes b in
    let again = random_session_index draws in if not (v == 0) then some (v, draws) else again

-- `msg.first() != Some(&kind)`
abbrev pub first_is_not : ℕ → List ℕ → Bool
first_is_not kind [] = Bool.true
first_is_not kind (b ∷ bs) = not (b == kind)

module _ (n : Noise) where
  unfoldable pub initiator_new : List ℕ → List ℕ → Result n.Handshake
  initiator_new private server_public = n.build_initiator private server_public

  -- The message, with its type byte, in a buffer of length `room`.
  unfoldable pub write_init : n.Handshake → ℕ → n.Handshake × Result (List ℕ)
  write_init state room =
      if room == 0
      then (state, err (bail "empty buffer"))
      else (let written = n.handshake_write state [] (room - 1) in
          (written.0, written.1 >>= λ m. ok (1 ∷ m)))

  unfoldable pub initiator_finish : n.Handshake → List ℕ → Result (Session n)
  initiator_finish state msg = do
    bail_if (first_is_not 2 msg) "expected handshake response (type 2)"
    bail_if (ltb (length msg) (1 + 4)) "handshake response too short"
    let index = from_le_bytes (take 4 (drop 1 msg))
    let read = n.handshake_read state (drop 5 msg) max_message
    _ ← read.1
    transport ← n.into_transport_mode read.0
    ok (from_transport {n = n} index transport)

  unfoldable pub responder_new : List ℕ → Result n.Handshake
  responder_new private = n.build_responder private

  -- The session and the response. The response buffer has 128 bytes behind its header.
  unfoldable pub responder_finish : n.Handshake → List ℕ → ℕ → Result (Session n × List ℕ)
  responder_finish state msg index = do
    bail_if (first_is_not 1 msg) "expected handshake init (type 1)"
    bail_if (index == 0) "session index must be non-zero"
    let read = n.handshake_read state (drop 1 msg) max_message
    _ ← read.1
    let written = n.handshake_write read.0 [] 128
    m ← written.1
    transport ← n.into_transport_mode written.0
    ok (from_transport {n = n} index transport, 2 ∷ (to_le_bytes 4 index ++ m))
