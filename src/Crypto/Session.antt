-- ===== src/Crypto/Session.antt =====
-- src/crypto.rs, `Session` (lines 18-20 and 145-210): the framing of data packets.
-- An output buffer enters as its length; the bytes returned are its first `len` bytes, the only
-- ones that callers read. `Result::Err` leaves the session changed as far as the code has come.
pub mod Laws
pub mod Delivery
pub mod Forged
use soulvpn.Base.{
  ℕ, ◌+◌, ◌-◌, ◌%◌, ◌^◌, Bool, not, Option, List, ◌++◌, length, take, drop, ltb, ◌==◌,
  if◌then◌else◌, Result, ok, err, bail, with_context, to_le_bytes, from_le_bytes,
}
use soulvpn.Crypto.Noise.{Noise}
use soulvpn.Crypto.Replay.{ReplayWindow, default, check_and_update}

abbrev pub max_message : ℕ
max_message = 65535

abbrev pub max_payload : ℕ
max_payload = 65519

pub record Session (n : Noise) : Type 0 where
  pub index : ℕ
  pub transport : n.Transport
  pub send_nonce : ℕ
  pub replay : ReplayWindow

-- `[session_index:u32 LE][nonce:u64 LE]`
abbrev pub header : ℕ → ℕ → List ℕ
header index nonce = to_le_bytes 4 index ++ to_le_bytes 8 nonce

abbrev pub header_index : List ℕ → ℕ
header_index packet = from_le_bytes (take 4 packet)

abbrev pub header_nonce : List ℕ → ℕ
header_nonce packet = from_le_bytes (take 8 (drop 4 packet))

module _ {n : Noise} where
  unfoldable pub from_transport : ℕ → n.Transport → Session n
  from_transport index transport = record {
    index = index;
    transport = transport;
    send_nonce = 0;
    replay = default;
  }

  -- `Ok(12 + n)`, where the message was written behind the header.
  abbrev pub encrypted : Session n → n.Transport × Result (List ℕ) → Session n × Result (List ℕ)
  encrypted s (t, err e) = (record s { transport = t }, with_context "noise encrypt" (err e))
  encrypted s (t, ok ct) = (
    record s { transport = t; send_nonce = (s.send_nonce + 1) % 2 ^ 64 },
    ok (header s.index s.send_nonce ++ ct),
  )

  unfoldable pub encrypt : Session n → List ℕ → ℕ → Session n × Result (List ℕ)
  encrypt s plaintext room =
      if ltb max_payload (length plaintext)
      then (s, err (bail "payload too large"))
      else if ltb room (12 + length plaintext + 16)
      then (s, err (bail "encrypt output buffer too small"))
      else encrypted s (n.write_message s.transport plaintext (room - 12))

  -- The nonce is recorded before the ciphertext is read.
  abbrev pub opened : Session n → List ℕ → ℕ → ReplayWindow × Bool → Session n × Result (List ℕ)
  opened s packet room (w, fresh) =
      if not fresh
      then (record s { replay = w }, err (bail "replayed or stale nonce"))
      else (let read =
            n.read_message (n.set_receiving_nonce s.transport (header_nonce packet))
              (drop 12 packet) room in
          (record s { replay = w; transport = read.0 }, with_context "noise decrypt" read.1))

  unfoldable pub decrypt : Session n → List ℕ → ℕ → Session n × Result (List ℕ)
  decrypt s packet room =
      if ltb (length packet) (12 + 16)
      then (s, err (bail "data packet too short"))
      else if not (header_index packet == s.index)
      then (s, err (bail "session index mismatch"))
      else opened s packet room (check_and_update s.replay (header_nonce packet))

  unfoldable pub remote_static : Session n → Option (List ℕ)
  remote_static s = n.get_remote_static s.transport
