-- ===== src/Crypto/Handshake/Laws.antt =====
-- What the handshake framing guarantees, whatever the Noise implementation does.
use soulvpn.Base.{
  ℕ, suc, ◌^◌, ◌<◌, ◌≡◌, ◌≢◌, refl, some, List, [], ◌∷◌, ◌++◌, length, drop, Result, ok, err, ◌>>=◌,
  arith, to_le_bytes, length-to_le_bytes, from_le_bytes-to_le_bytes, take-append, drop-append,
  length-append, Bool-cases, ltb-eq-false, ◌==◌, inl, inr,
}
use soulvpn.Crypto.Noise.{Noise}
use soulvpn.Crypto.Session.{Session, from_transport, max_message}
use soulvpn.Crypto.Handshake.{
  random_session_index, initiator_finish, responder_finish, first_is_not,
}

bind_assoc {ℓ κ μ} :
    {A : Type ℓ} {B : Type κ} {C : Type μ} (a : Result A) (b : Result B) (f : B → Result C)
    → (a >>= λ _. b >>= f) ≡ ((a >>= λ _. b) >>= f)
bind_assoc (ok a) b f = refl
bind_assoc (err e) b f = refl

module _ (n : Noise) where
  -- The Noise part of the initiator's last step, on the response without its header.
  abbrev pub noise_finish : n.Handshake → List ℕ → Result n.Transport
  noise_finish state m =
      let read = n.handshake_read state m max_message in
      read.1 >>= λ _. n.into_transport_mode read.0

  -- The last three fallible steps of the responder.
  abbrev responded :
      ℕ → Result (List ℕ) → Result (List ℕ) → Result n.Transport → Result (Session n × List ℕ)
  responded index a b c = do
    _ ← a
    m ← b
    t ← c
    ok (from_transport {n = n} index t, 2 ∷ (to_le_bytes 4 index ++ m))

  response_steps :
      (index : ℕ) (a b : Result (List ℕ)) (c : Result n.Transport) (session : Session n)
      (response : List ℕ)
      → responded index a b c ≡ ok (session, response)
      → (session.index ≡ index) × ((m : List ℕ) × (response ≡ 2 ∷ (to_le_bytes 4 index ++ m)))
  unfolding from_transport
  response_steps index (ok a) (ok m) (ok t) session response h = (ground arith, (m, ground arith))
  response_steps index (ok a) (ok m) (err e) session response h = cc
  response_steps index (ok a) (err e) c session response h = cc
  response_steps index (err e) b c session response h = cc

  pub responder_finish-index :
      (state : n.Handshake) (msg : List ℕ) (index : ℕ) (session : Session n) (response : List ℕ)
      → responder_finish n state msg index ≡ ok (session, response)
      → (index ≢ 0)
        × (session.index ≡ index)
        × ((m : List ℕ) × (response ≡ 2 ∷ (to_le_bytes 4 index ++ m)))
  unfolding responder_finish
  responder_finish-index state msg index session response h =
      elim (Bool-cases (first_is_not 1 msg)) [
        | inl wrong ↦ absurd (ground (arith, wrong))
        | inr init ↦ elim (Bool-cases (index == 0)) [
          | inl zero_index ↦ absurd (ground (arith, init))
          | inr nonzero ↦
              let nonzero_index : index ≢ 0 = ground arith in
              let read = n.handshake_read state (drop 1 msg) max_message in
              let written = n.handshake_write read.0 [] 128 in
              let steps =
                response_steps index read.1 written.1 (n.into_transport_mode written.0) session
                  response (rw (init, nonzero) at h) in
              (nonzero_index, steps.0, steps.1)
        ]
      ]

  pub initiator_finish_lem :
      (state : n.Handshake) (index : ℕ) (m : List ℕ)
      → index < 2 ^ 32
      → initiator_finish n state (2 ∷ (to_le_bytes 4 index ++ m))
        ≡ (noise_finish state m >>= λ t. ok (from_transport {n = n} index t))
  unfolding initiator_finish
  initiator_finish_lem state index m h =
      rw
        (
          take-append 4 (to_le_bytes 4 index) m (length-to_le_bytes 4 index),
          drop-append 4 (to_le_bytes 4 index) m (length-to_le_bytes 4 index),
          from_le_bytes-to_le_bytes 4 index h,
          ltb-eq-false (suc (length (to_le_bytes 4 index ++ m))) 5
              (omega (arith, length-append (to_le_bytes 4 index) m, length-to_le_bytes 4 index)),
        )
        (let read = n.handshake_read state m max_message in
          bind_assoc read.1 (n.into_transport_mode read.0)
            (λ t. ok (from_transport {n = n} index t)))

  -- A response that the responder made, with an index that fits a word, is framed so that the
  -- initiator accepts it exactly if Noise accepts the message in it; the two sessions then carry the
  -- same index, which is not zero.
  pub initiator_finish-responder_finish :
      (responder initiator : n.Handshake) (msg : List ℕ) (index : ℕ) (session : Session n)
      (response : List ℕ)
      → index < 2 ^ 32
      → responder_finish n responder msg index ≡ ok (session, response)
      → (index ≢ 0)
        × (session.index ≡ index)
        × ((m : List ℕ) × (response ≡ 2 ∷ (to_le_bytes 4 index ++ m))
            × (initiator_finish n initiator response
                ≡ (noise_finish initiator m >>= λ t. ok (from_transport {n = n} session.index t))))
  initiator_finish-responder_finish responder initiator msg index session response small h =
      let made = responder_finish-index responder msg index session response h in
      (
        made.0,
        made.1,
        (
          made.2.0,
          made.2.1,
          rw (made.2.1, made.1) (initiator_finish_lem initiator index made.2.0 small),
        ),
      )

pub random_session_index_nonzero :
    (draws : List (List ℕ)) (v : ℕ) (rest : List (List ℕ))
    → random_session_index draws ≡ some (v, rest)
    → v ≢ 0
unfolding random_session_index
random_session_index_nonzero [] v rest h = cc
random_session_index_nonzero (b ∷ draws) v rest h =
    ground (arith, random_session_index_nonzero draws v rest)
