-- ===== src/Crypto/Session/Laws.antt =====
-- What sealing and opening data packets guarantee, over a transport that keeps its promises.
use soulvpn.Base.{
  ℕ, ◌+◌, ◌-◌, ◌^◌, ◌≤◌, ◌<◌, ◌≡◌, Bool, List, ◌++◌, length, drop, ltb, if◌then◌else◌, Result, ok,
  err, bail, arith, to_le_bytes, length-to_le_bytes, from_le_bytes-to_le_bytes, take-append,
  drop-append, append_assoc, length-append, inl, inr, Bool-cases,
}
use soulvpn.Crypto.Noise.{Noise, NoiseLaws}
use soulvpn.Crypto.Replay.{check_and_update}
use soulvpn.Crypto.Replay.Refines.{
  Refines, is_fresh, accept, check_and_update-fresh, check_and_update-Refines,
}
use soulvpn.Crypto.Session.{
  Session, header, header_index, header_nonce, encrypt, decrypt, opened, encrypted, max_payload,
}

-- The header of a packet is read back.
pub header_index-header :
    (index nonce : ℕ) (ct : List ℕ)
    → index < 2 ^ 32
    → header_index (header index nonce ++ ct) ≡ index
header_index-header index nonce ct h =
    rw
      (
        append_assoc (to_le_bytes 4 index) (to_le_bytes 8 nonce) ct,
        take-append 4 (to_le_bytes 4 index) (to_le_bytes 8 nonce ++ ct)
            (length-to_le_bytes 4 index),
      )
      (from_le_bytes-to_le_bytes 4 index h)

pub header_nonce-header :
    (index nonce : ℕ) (ct : List ℕ)
    → nonce < 2 ^ 64
    → header_nonce (header index nonce ++ ct) ≡ nonce
header_nonce-header index nonce ct h =
    rw
      (
        append_assoc (to_le_bytes 4 index) (to_le_bytes 8 nonce) ct,
        drop-append 4 (to_le_bytes 4 index) (to_le_bytes 8 nonce ++ ct)
            (length-to_le_bytes 4 index),
        take-append 8 (to_le_bytes 8 nonce) ct (length-to_le_bytes 8 nonce),
      )
      (from_le_bytes-to_le_bytes 8 nonce h)

pub length-header : (index nonce : ℕ) → length (header index nonce) ≡ 12
length-header index nonce = omega (
  arith,
  length-append (to_le_bytes 4 index) (to_le_bytes 8 nonce),
  length-to_le_bytes 4 index,
  length-to_le_bytes 8 nonce,
)

-- What the receiver makes of a genuine packet: the plaintext if its nonce is fresh, else an error.
abbrev pub answer : Bool → List ℕ → Result (List ℕ)
answer fresh plain = if fresh then ok plain else err (bail "replayed or stale nonce")

-- A packet on its way: its nonce, its plaintext and its ciphertext.
pub record Flight : Type 0 where
  pub nonce : ℕ
  pub plain : List ℕ
  pub ct : List ℕ

abbrev pub packet_of : ℕ → Flight → List ℕ
packet_of index f = header index f.nonce ++ f.ct

module _ {n : Noise} (laws : NoiseLaws n) where
  open laws use {Sealed, sealed_length, sealed_opens, sealed_read}

  -- The packet is one that the peer of `b` sent, and fits the receiver's buffer.
  pub record IsGenuine (b : n.Transport) (room : ℕ) (f : Flight) : Type 0 where
    pub nonce_lt : f.nonce < 2 ^ 64
    pub fits : length f.plain ≤ room
    pub sealed : Sealed b f.nonce f.plain f.ct

  -- The receiver's window stands for the set of nonces `seen`.
  pub record IsReceiver (s : Session n) (seen : List ℕ) : Type 0 where
    pub index_lt : s.index < 2 ^ 32
    pub window : Refines s.replay seen

  module _ {s : Session n} {seen : List ℕ} {room : ℕ} {f : Flight} (r : IsReceiver s seen)
      (g : IsGenuine s.transport room f) where
    decrypt-packet_of :
        decrypt s (packet_of s.index f) room
        ≡ opened s (packet_of s.index f) room (check_and_update s.replay f.nonce)
    unfolding decrypt
    decrypt-packet_of = ground (
      arith,
      length-append (header s.index f.nonce) f.ct,
      length-header s.index f.nonce,
      sealed_length s.transport f.nonce f.plain f.ct g.sealed,
      header_index-header s.index f.nonce f.ct r.index_lt,
      header_nonce-header s.index f.nonce f.ct g.nonce_lt,
    )

    opens :
        (n.read_message
          (n.set_receiving_nonce s.transport (header_nonce (packet_of s.index f)))
          (drop 12 (packet_of s.index f))
          room).1
        ≡ ok f.plain
    opens =
        rw
          (
            header_nonce-header s.index f.nonce f.ct g.nonce_lt,
            drop-append 12 (header s.index f.nonce) f.ct (length-header s.index f.nonce),
          )
          (sealed_opens s.transport f.nonce f.plain f.ct room g.sealed g.fits)

    pub decrypt-answer :
        (decrypt s (packet_of s.index f) room).1 ≡ answer (is_fresh seen f.nonce) f.plain
    decrypt-answer =
        rw decrypt-packet_of (ground (arith, check_and_update-fresh r.window f.nonce, opens))

    pub decrypt-IsReceiver :
        IsReceiver (decrypt s (packet_of s.index f) room).0 (accept seen f.nonce)
    decrypt-IsReceiver =
        rw decrypt-packet_of (ground (arith, r.index_lt, check_and_update-Refines r.window f.nonce))

    pub decrypt-index : (decrypt s (packet_of s.index f) room).0.index ≡ s.index
    decrypt-index = rw decrypt-packet_of (ground arith)

    pub decrypt-IsGenuine :
        (other : Flight)
        → IsGenuine s.transport room other
        → IsGenuine (decrypt s (packet_of s.index f) room).0.transport room other
    decrypt-IsGenuine other o = rw decrypt-packet_of (record {
      nonce_lt = o.nonce_lt;
      fits = o.fits;
      sealed = ground (
        arith,
        o.sealed,
        sealed_read s.transport other.nonce other.plain other.ct
            (header_nonce (packet_of s.index f)) (drop 12 (packet_of s.index f)) room o.sealed,
      );
    })

-- Whatever arrives, a session keeps its index.
pub decrypt-index_eq :
    {n : Noise} (s : Session n) (packet : List ℕ) (room : ℕ)
    → (decrypt s packet room).0.index ≡ s.index
unfolding decrypt
decrypt-index_eq s packet room = ground arith

pub encrypt-index_eq :
    {n : Noise} (s : Session n) (plain : List ℕ) (room : ℕ)
    → (encrypt s plain room).0.index ≡ s.index
unfolding encrypt
encrypt-index_eq {n} s plain room = ground arith

-- A packet that is sealed begins with the session's header.
encrypted-framed :
    {n : Noise} (s : Session n) (r : n.Transport × Result (List ℕ)) (packet : List ℕ)
    → (encrypted s r).1 ≡ ok packet
    → (ct : List ℕ) × (packet ≡ header s.index s.send_nonce ++ ct)
encrypted-framed s (t, err e) packet h = cc
encrypted-framed s (t, ok ct) packet h = (ct, cc)

pub encrypt-framed :
    {n : Noise} (s : Session n) (plain : List ℕ) (room : ℕ) (packet : List ℕ)
    → (encrypt s plain room).1 ≡ ok packet
    → (ct : List ℕ) × (packet ≡ header s.index s.send_nonce ++ ct)
unfolding encrypt
encrypt-framed {n} s plain room packet h = elim (Bool-cases (ltb max_payload (length plain))) [
  | inl large ↦ cc (rw large at h)
  | inr fits ↦ elim (Bool-cases (ltb room (12 + length plain + 16))) [
    | inl small ↦ cc (rw (fits, small) at h)
    | inr wide ↦
        encrypted-framed s (n.write_message s.transport plain (room - 12)) packet
          (rw (fits, wide) at h)
  ]
]
