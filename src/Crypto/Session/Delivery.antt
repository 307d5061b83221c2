-- ===== src/Crypto/Session/Delivery.antt =====
-- Whole exchanges over a data session: one side seals packets, the network reorders, drops and
-- repeats them, and the other side opens what arrives.
use soulvpn.Base.{
  ℕ, ◌+◌, ◌-◌, ◌%◌, ◌^◌, ◌≤◌, ◌<◌, ◌≡◌, refl, sym, ◌∙◌, ap, ap₂, subst, true, false, List, [], ◌∷◌,
  length, Result, ok, arith, map, map-map,
}
use soulvpn.Crypto.Noise.{Noise, NoiseLaws}
use soulvpn.Crypto.Replay.Refines.{is_fresh, accept, newest, contains, default-Refines}
use soulvpn.Crypto.Session.{Session, encrypt, decrypt, from_transport, max_payload}
use soulvpn.Crypto.Session.Laws.{
  Flight, packet_of, answer, IsGenuine, IsReceiver, decrypt-answer, decrypt-IsReceiver,
  decrypt-index, decrypt-IsGenuine,
}

-- The results of `decrypt` on packets in the order of their arrival.
pub decrypt_all : {n : Noise} → Session n → ℕ → List (List ℕ) → List (Result (List ℕ))
decrypt_all s room [] = []
decrypt_all s room (p ∷ ps) = let (s', r) = decrypt s p room in r ∷ decrypt_all s' room ps

-- What they should be: each plaintext once, if it is not too late, and an error otherwise.
abbrev pub delivered : List ℕ → List Flight → List (Result (List ℕ))
delivered seen [] = []
delivered seen (f ∷ fs) =
    answer (is_fresh seen f.nonce) f.plain ∷ delivered (accept seen f.nonce) fs

-- The results of `encrypt` on a list of plaintexts.
pub encrypt_all : {n : Noise} → Session n → ℕ → List (List ℕ) → List (Result (List ℕ))
encrypt_all s room [] = []
encrypt_all s room (p ∷ ps) = let (s', r) = encrypt s p room in r ∷ encrypt_all s' room ps

-- The nonces count up from `c`.
abbrev pub InOrder : ℕ → List Flight → Type 0
InOrder c [] = Unit {0}
InOrder c (f ∷ fs) = (f.nonce ≡ c) × InOrder (c + 1) fs

accept_next :
    (c : ℕ) (seen : List ℕ)
    → newest seen ≤ c
    → contains c seen ≡ false
    → (is_fresh seen c ≡ true) × (accept seen c ≡ c ∷ seen)
unfolding is_fresh accept
accept_next c seen h new = ground arith

-- Nonces that count up from above all that were seen are all fresh.
pub delivered-InOrder :
    (fs : List Flight) (c : ℕ) (seen : List ℕ)
    → InOrder c fs
    → newest seen ≤ c
    → ((m : ℕ) → c ≤ m → contains m seen ≡ false)
    → delivered seen fs ≡ map (λ f. ok f.plain) fs
delivered-InOrder [] c seen o h new = refl
delivered-InOrder (f ∷ fs) c seen o h new =
    let next = accept_next c seen h (new c (omega arith)) in
    rw (o.0, next.0, next.1)
      (ap (◌∷◌ (ok f.plain)) (
        delivered-InOrder fs (c + 1) (c ∷ seen) o.1 (omega arith)
          (λ m le. ground (arith, new m (omega arith)))))

module _ {n : Noise} (laws : NoiseLaws n) where
  open laws use {Linked, Sealed, write_seals}

  abbrev pub AllGenuine : n.Transport → ℕ → List Flight → Type 0
  AllGenuine b room [] = Unit {0}
  AllGenuine b room (f ∷ fs) = IsGenuine laws b room f × AllGenuine b room fs

  pub AllGenuine-decrypt :
      {s : Session n} {seen : List ℕ} {room : ℕ} {f : Flight} (fs : List Flight)
      → IsReceiver laws s seen
      → IsGenuine laws s.transport room f
      → AllGenuine s.transport room fs
      → AllGenuine (decrypt s (packet_of s.index f) room).0.transport room fs
  AllGenuine-decrypt [] r g all = tt
  AllGenuine-decrypt (h ∷ fs) r g all =
      (decrypt-IsGenuine laws r g h all.0, AllGenuine-decrypt fs r g all.1)

  -- Whatever genuine packets arrive at a session, in whatever order and however often, each
  -- plaintext is delivered exactly for the first arrival of its nonce that is less than 1024 behind
  -- the newest nonce accepted before; every other arrival is refused as replayed or stale.
  pub decrypt_all-delivered :
      (fs : List Flight) (room : ℕ) {s : Session n} {seen : List ℕ}
      → IsReceiver laws s seen
      → AllGenuine s.transport room fs
      → decrypt_all s room (map (packet_of s.index) fs) ≡ delivered seen fs
  unfolding decrypt_all
  decrypt_all-delivered [] room r all = refl
  decrypt_all-delivered (f ∷ fs) room {s} {seen} r all =
      let s' : Session n = (decrypt s (packet_of s.index f) room).0 in
      let later : decrypt_all s' room (map (packet_of s'.index) fs)
          ≡ delivered (accept seen f.nonce) fs =
        decrypt_all-delivered fs room (decrypt-IsReceiver laws r all.0)
          (AllGenuine-decrypt fs r all.0 all.1) in
      ap₂ ◌∷◌ (decrypt-answer laws r all.0) (rw (decrypt-index laws r all.0) at later)

  -- The sender `s` is in step with its transport, and `b` holds the receiving key.
  abbrev pub IsSender : Session n → n.Transport → Type 0
  IsSender s b = Linked s.transport s.send_nonce b

  -- One packet: it is sealed under the sender's counter, which counts up.
  pub encrypt-IsGenuine :
      (s : Session n) (b : n.Transport) (plain : List ℕ) (room room' : ℕ)
      → IsSender s b
      → s.send_nonce + 1 < 2 ^ 64
      → length plain ≤ max_payload
      → length plain + 28 ≤ room
      → length plain ≤ room'
      → (s' : Session n) × (f : Flight) × (encrypt s plain room ≡ (s', ok (packet_of s.index f)))
        × IsSender s' b
        × (s'.index ≡ s.index)
        × (s'.send_nonce ≡ s.send_nonce + 1)
        × (f.nonce ≡ s.send_nonce)
        × (f.plain ≡ plain)
        × IsGenuine laws b room' f
  unfolding encrypt
  encrypt-IsGenuine s b plain room room' i hc hp hr hr' =
      let w = write_seals s.transport b s.send_nonce plain (room - 12) i hc hp (omega arith) in
      (
        record s { transport = w.0; send_nonce = (s.send_nonce + 1) % 2 ^ 64 },
        record { nonce = s.send_nonce; plain = plain; ct = w.1 },
        ground (arith, w.2),
        ground (arith, w.3),
        refl,
        omega arith,
        refl,
        refl,
        record { nonce_lt = omega arith; fits = hr'; sealed = w.4 },
      )

  -- Each plaintext fits a Noise message, the sender's buffer and the receiver's.
  abbrev pub AllFit : ℕ → ℕ → List (List ℕ) → Type 0
  AllFit room room' [] = Unit {0}
  AllFit room room' (p ∷ ps) =
      ((length p ≤ max_payload) × (length p + 28 ≤ room) × (length p ≤ room'))
      × AllFit room room' ps

  -- A stream: it is sealed under consecutive nonces, from the sender's counter on.
  pub encrypt_all-AllGenuine :
      (plains : List (List ℕ)) (s : Session n) (b : n.Transport) (room room' : ℕ)
      → IsSender s b
      → s.send_nonce + length plains < 2 ^ 64
      → AllFit room room' plains
      → (fs : List Flight) × (encrypt_all s room plains ≡ map (λ f. ok (packet_of s.index f)) fs)
        × (map (λ f. f.plain) fs ≡ plains)
        × InOrder s.send_nonce fs
        × AllGenuine b room' fs
  unfolding encrypt_all
  encrypt_all-AllGenuine [] s b room room' i h fit = ([], refl, refl, tt, tt)
  encrypt_all-AllGenuine (p ∷ ps) s b room room' i h fit =
      let e = encrypt-IsGenuine s b p room room' i (omega arith) fit.0.0 fit.0.1 fit.0.2 in
      let later = encrypt_all-AllGenuine ps e.0 b room room' e.3 (omega (arith, e.5)) fit.1 in
      (
        e.1 ∷ later.0,
        rw e.2 (ap (◌∷◌ (ok (packet_of s.index e.1))) (rw e.4 at later.1)),
        ap₂ ◌∷◌ e.7 later.2,
        (e.6, subst (λ c. InOrder c later.0) e.5 later.3),
        (e.8, later.4),
      )

  -- Every stream of plaintexts that fit and do not exhaust the counter is sealed without an error, and
  -- when the packets arrive in order, a new session of the same index that holds the receiving key
  -- gives all the plaintexts back.
  pub decrypt_all-encrypt_all :
      (plains : List (List ℕ)) (s : Session n) (b : n.Transport) (room room' : ℕ)
      → s.index < 2 ^ 32
      → IsSender s b
      → s.send_nonce + length plains < 2 ^ 64
      → AllFit room room' plains
      → (packets : List (List ℕ)) × (encrypt_all s room plains ≡ map ok packets)
        × (decrypt_all (from_transport {n = n} s.index b) room' packets ≡ map ok plains)
  unfolding from_transport
  decrypt_all-encrypt_all plains s b room room' hi i h fit =
      let sent = encrypt_all-AllGenuine plains s b room room' i h fit in
      let fs : List Flight = sent.0 in
      let r : IsReceiver laws (from_transport {n = n} s.index b) [] = record {
        index_lt = hi;
        window = default-Refines;
      } in
      (
        map (packet_of s.index) fs,
        sent.1 ∙ sym (map-map _ _ fs),
        decrypt_all-delivered fs room' r sent.4
            ∙ delivered-InOrder fs s.send_nonce [] sent.3 (omega arith) (λ m _. refl)
            ∙ sym (map-map _ _ fs)
            ∙ ap (map ok) sent.2,
      )
