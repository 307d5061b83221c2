-- ===== src/Crypto/Session/Forged.antt =====
-- The order of the steps in `Session::decrypt`: the nonce is recorded before the ciphertext is
-- authenticated.
use soulvpn.Base.{
  ℕ, ◌+◌, ◌≤◌, ◌<◌, ◌≡◌, sym, ◌∙◌, true, false, List, length, drop, Error, err, bail, context,
  arith, refl, [], ◌∷◌, ltb, ◌==◌, Bool-cases, inl, inr,
}
use soulvpn.Crypto.Noise.{Noise}
use soulvpn.Crypto.Replay.Refines.{
  Refines, is_fresh, accept, newest, contains-le, check_and_update-fresh, check_and_update-Refines,
}
use soulvpn.Crypto.Replay.{check_and_update}
use soulvpn.Crypto.Session.{Session, decrypt, header_index, header_nonce}

module _ {n : Noise} (s : Session n) (seen : List ℕ) (forged : List ℕ) (room : ℕ) (e : Error)
    (r : Refines s.replay seen) (long : 28 ≤ length forged) (same : header_index forged ≡ s.index)
    (ahead : newest seen < header_nonce forged)
    (fails : (n.read_message
        (n.set_receiving_nonce s.transport (header_nonce forged))
        (drop 12 forged)
        room).1
      ≡ err e) where
  forged_fresh :
      (is_fresh seen (header_nonce forged) ≡ true)
      × (newest (accept seen (header_nonce forged)) ≡ header_nonce forged)
  unfolding is_fresh accept
  forged_fresh = ground (arith, contains-le (header_nonce forged) seen)

  forged_refused :
      ((decrypt s forged room).1 ≡ err (context "noise decrypt" e))
      × ((decrypt s forged room).0.index ≡ s.index)
      × Refines (decrypt s forged room).0.replay (accept seen (header_nonce forged))
  unfolding decrypt
  forged_refused = ground (
    arith,
    fails,
    forged_fresh,
    check_and_update-fresh r (header_nonce forged),
    check_and_update-Refines r (header_nonce forged),
  )

-- A nonce that the window has left behind is stale.
pub stale_not_fresh : (seen : List ℕ) (c : ℕ) → c + 1024 ≤ newest seen → is_fresh seen c ≡ false
unfolding is_fresh
stale_not_fresh seen c h = ground arith

decrypt-stale :
    {n : Noise} (s : Session n) (seen : List ℕ) (packet : List ℕ) (room : ℕ)
    → Refines s.replay seen
    → 28 ≤ length packet
    → header_index packet ≡ s.index
    → header_nonce packet + 1024 ≤ newest seen
    → (decrypt s packet room).1 ≡ err (bail "replayed or stale nonce")
unfolding decrypt
decrypt-stale s seen packet room r long same late = ground (
  arith,
  check_and_update-fresh r (header_nonce packet),
  stale_not_fresh seen (header_nonce packet) late,
)

-- The session after packets in the order of their arrival, whatever becomes of them.
pub after_all : {n : Noise} → Session n → ℕ → List (List ℕ) → Session n
after_all s room [] = s
after_all s room (p ∷ ps) = after_all (decrypt s p room).0 room ps

-- The window of the session has reached `top`.
abbrev HasReached : {n : Noise} → Session n → ℕ → Type 0
HasReached s top = (seen : List ℕ) × Refines s.replay seen × (top ≤ newest seen)

newest-accept : (seen : List ℕ) (c : ℕ) → newest seen ≤ newest (accept seen c)
unfolding accept
newest-accept seen c = ground arith

-- No packet takes the window back.
decrypt-HasReached :
    {n : Noise} (s : Session n) (packet : List ℕ) (room top : ℕ)
    → HasReached s top
    → HasReached (decrypt s packet room).0 top × ((decrypt s packet room).0.index ≡ s.index)
unfolding decrypt
decrypt-HasReached s packet room top (seen, r, high) =
    let nonce : ℕ = header_nonce packet in
    let moved = check_and_update-Refines r nonce in
    let high' : top ≤ newest (accept seen nonce) = omega (arith, high, newest-accept seen nonce) in
    elim (Bool-cases (ltb (length packet) 28)) [
      | inl short ↦ simp short ((seen, r, high), refl)
      | inr long ↦ elim (Bool-cases (header_index packet == s.index)) [
        | inr other ↦ simp (long, other) ((seen, r, high), refl)
        | inl same ↦ elim (Bool-cases (check_and_update s.replay nonce).1) [
          | inl fresh ↦ simp (long, same, fresh) ((accept seen nonce, moved, high'), refl)
          | inr old ↦ simp (long, same, old) ((accept seen nonce, moved, high'), refl)
        ]
      ]
    ]

after_all-HasReached :
    {n : Noise} (ps : List (List ℕ)) (s : Session n) (room top : ℕ)
    → HasReached s top
    → HasReached (after_all s room ps) top × ((after_all s room ps).index ≡ s.index)
unfolding after_all
after_all-HasReached [] s room top reached = (reached, refl)
after_all-HasReached (p ∷ ps) s room top reached =
    let (next, same) = decrypt-HasReached s p room top reached in
    let (last, same') = after_all-HasReached ps (decrypt s p room).0 room top next in
    (last, same' ∙ same)

-- A packet with the session's index and a nonce above all accepted ones, which fails
-- authentication, is refused as it should be, but it moves the replay window: from then on, whatever
-- packets come between, every packet of the session whose nonce is 1024 or more below the forged one is
-- refused as stale, the genuine ones included.
pub forged-blocks :
    {n : Noise} (s : Session n) (seen : List ℕ) (forged packet : List ℕ) (between : List (List ℕ))
    (room : ℕ) (e : Error)
    → Refines s.replay seen
    → 28 ≤ length forged
    → header_index forged ≡ s.index
    → newest seen < header_nonce forged
    → (n.read_message
        (n.set_receiving_nonce s.transport (header_nonce forged))
        (drop 12 forged)
        room).1
      ≡ err e
    → 28 ≤ length packet
    → header_index packet ≡ s.index
    → header_nonce packet + 1024 ≤ header_nonce forged
    → ((decrypt s forged room).1 ≡ err (context "noise decrypt" e))
      × ((decrypt (after_all (decrypt s forged room).0 room between) packet room).1
          ≡ err (bail "replayed or stale nonce"))
forged-blocks s seen forged packet between room e r long same ahead fails long' same' late =
    let nonce : ℕ = header_nonce forged in
    let top = (forged_fresh s seen forged room e r long same ahead fails).1 in
    let after = forged_refused s seen forged room e r long same ahead fails in
    let reached : HasReached (decrypt s forged room).0 nonce =
      (accept seen nonce, after.2, omega (arith, top)) in
    let ((seen', r', high), index) =
      after_all-HasReached between (decrypt s forged room).0 room nonce reached in
    (
      after.0,
      decrypt-stale (after_all (decrypt s forged room).0 room between) seen' packet room r' long'
          (same' ∙ sym after.1 ∙ sym index) (omega (arith, late, high)),
    )
