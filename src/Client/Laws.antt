-- ===== src/Client/Laws.antt =====
-- The guarantees of the client's tasks.
use soulvpn.Base.{
  ℕ, zero, suc, ◌+◌, ◌≤◌, ◌<◌, ◌^◌, ◌≡◌, refl, sym, ap, ap₂, subst, ◌∙◌, Bool, true, false, List,
  [], ◌∷◌, length, take, ◌==◌, Result, ok, err, arith, Bool-cases, inl, inr, ◌⊎◌, bind-ok,
  Result-cases,
}
use soulvpn.Crypto.Noise.{Noise, NoiseLaws}
use soulvpn.Crypto.Session.{Session, decrypt, max_message}
use soulvpn.Crypto.Session.Laws.{Flight, packet_of, answer, IsReceiver, decrypt-answer}
use soulvpn.Crypto.Session.Delivery.{IsSender, encrypt-IsGenuine}
use soulvpn.Crypto.Replay.Refines.{is_fresh}
use soulvpn.Crypto.Handshake.{initiator_new, write_init, initiator_finish}
use soulvpn.Stats.{Clock}
use soulvpn.Client.{
  Client, Output, send, write_tun, opened, on_udp, Attempt, not_sent, no_answer, answered,
  finish_attempt, attempts, handshake, Intervals, needs, upkeep,
}

-- Only authentic packets with content are written to the device, and nothing is sent.
abbrev pub Authentic : {n : Noise} → Client n → List ℕ → List Output → Type 0
Authentic c wire [] = Unit {0}
Authentic c wire (send w ∷ outputs) = ⊥
Authentic c wire (write_tun plain ∷ outputs) =
    (((decrypt c.slot.session wire max_message).1 ≡ ok plain)
      × (0 < length plain)
      × (c.stats.enabled ≡ true))
    × Authentic c wire outputs

-- What a successful handshake goes back to: an attempt whose answer Noise accepted.
abbrev pub IsAnswered :
    (n : Noise) → List ℕ → List ℕ → (ℕ → List ℕ → Attempt) → ℕ → ℕ → Session n → Type 0
IsAnswered n private server_public net first last session =
    (attempt : ℕ) × (init : n.Handshake) × (msg resp : List ℕ) × (first ≤ attempt)
    × (attempt < last)
    × (initiator_new n private server_public ≡ ok init)
    × ((write_init n init 256).1 ≡ ok msg)
    × (net attempt msg ≡ answered resp)
    × (initiator_finish n (write_init n init 256).0 (take 256 resp) ≡ ok session)

opened-Authentic :
    {n : Noise} (c : Client n) (wire : List ℕ) (now : Clock) (written : Bool)
    (r : Session n × Result (List ℕ))
    → c.stats.enabled ≡ true
    → r.1 ≡ (decrypt c.slot.session wire max_message).1
    → Authentic c wire (opened c now written r).outputs
opened-Authentic c wire now written (session, err e) on same = tt
opened-Authentic c wire now true (session, ok plain) on same =
    elim (Bool-cases (length plain == 0)) [
      | inl empty ↦ simp empty tt
      | inr full ↦ simp full ((sym same, ground arith, on), tt)
    ]
opened-Authentic c wire now false (session, ok plain) on same =
    elim (Bool-cases (length plain == 0)) [
      | inl empty ↦ simp empty tt
      | inr full ↦ simp full ((sym same, ground arith, on), tt)
    ]

-- Whatever datagram arrives, the client writes to its TUN device only what its session authenticates
-- and what is not a keepalive, and nothing at all while the data plane is off; and it sends nothing.
pub on_udp-Authentic :
    {n : Noise} (c : Client n) (wire : List ℕ) (now : Clock) (written : Bool)
    → Authentic c wire (on_udp c wire now written).outputs
unfolding on_udp
on_udp-Authentic c wire now written = elim (Bool-cases c.stats.enabled) [
  | inr off ↦ simp off tt
  | inl on ↦
      simp on
        (opened-Authentic c wire now written (decrypt c.slot.session wire max_message) on refl)
]

module _ (n : Noise) (private server_public : List ℕ) (net : ℕ → List ℕ → Attempt) where
  finish_attempt_cases :
      (init : n.Handshake) (other : Result (Session n)) (outcome : Attempt) (session : Session n)
      → finish_attempt n private server_public init other outcome ≡ ok session
      → (other ≡ ok session)
        ⊎ ((resp : List ℕ) × (outcome ≡ answered resp)
            × (initiator_finish n init (take 256 resp) ≡ ok session))
  finish_attempt_cases init other not_sent session h = cc
  finish_attempt_cases init other no_answer session h = inl h
  finish_attempt_cases init other (answered resp) session h =
      elim (Result-cases (initiator_finish n init (take 256 resp))) [
        | inl (made, accepted) ↦ inr (resp, refl, ground (arith, accepted))
        | inr (e, refused) ↦ inl (ground (arith, refused))
      ]

  attempts-IsAnswered :
      (attempt left : ℕ) (session : Session n)
      → attempts n private server_public net attempt left ≡ ok session
      → IsAnswered n private server_public net attempt (attempt + left) session
  unfolding attempts
  attempts-IsAnswered attempt zero session h = cc
  attempts-IsAnswered attempt (suc left) session h =
      let other = attempts n private server_public net (attempt + 1) left in
      let init = bind-ok (initiator_new n private server_public) _ session h in
      let msg = bind-ok (write_init n init.0 256).1 _ session init.2 in
      elim (finish_attempt_cases (write_init n init.0 256).0 other (net attempt msg.0) session
        msg.2) [
          | inl later ↦
              let found = attempts-IsAnswered (attempt + 1) left session later in
              (
                found.0,
                found.1,
                found.2,
                found.3,
                omega (arith, found.4),
                omega (arith, found.5),
                found.6,
                found.7,
                found.8,
                found.9,
              )
          | inr (resp, came, accepted) ↦ (
            attempt,
            init.0,
            msg.0,
            resp,
            omega arith,
            omega arith,
            init.1,
            msg.1,
            came,
            accepted,
          )
        ]

  -- A handshake that succeeds has, in one of its ten attempts, sent the message that Noise gave it and
  -- received an answer that the initiator of the same attempt accepted; the session is the one that
  -- this answer gave.
  pub handshake-IsAnswered :
      (session : Session n)
      → handshake n private server_public net ≡ ok session
      → IsAnswered n private server_public net 1 11 session
  unfolding handshake
  handshake-IsAnswered session h = attempts-IsAnswered 1 10 session h

-- A tick that finds the session fresh enough but idle sends a keepalive, and a server session of the
-- same index that holds the receiving key and has not seen its nonce opens it as an empty packet.
pub upkeep-keepalive :
    {n : Noise} (laws : NoiseLaws n) (cfg : Intervals) (c : Client n) (s : Session n)
    (seen : List ℕ) (now later : Clock) (shaken : Result (Session n))
    → c.stats.enabled ≡ true
    → (needs cfg c.slot now.instant).need_rekey ≡ false
    → (needs cfg c.slot now.instant).need_reconnect ≡ false
    → (needs cfg c.slot now.instant).need_keepalive ≡ true
    → IsSender laws c.slot.session s.transport
    → c.slot.session.send_nonce + 1 < 2 ^ 64
    → IsReceiver laws s seen
    → s.index ≡ c.slot.session.index
    → is_fresh seen c.slot.session.send_nonce ≡ true
    → (wire : List ℕ) × ((upkeep cfg c now later shaken).outputs ≡ send wire ∷ [])
      × ((decrypt s wire max_message).1 ≡ ok [])
unfolding upkeep
upkeep-keepalive laws cfg c s seen now later shaken on young heard idle sender count r same fresh =
    let session = c.slot.session in
    let e =
      encrypt-IsGenuine laws session s.transport [] 64 max_message sender count (omega arith)
        (omega arith) (omega arith) in
    let f : Flight = e.1 in
    (
      packet_of session.index f,
      simp (on, young, heard, idle, e.2) refl,
      subst (λ j. (decrypt s (packet_of j f) max_message).1 ≡ ok []) same
          (decrypt-answer laws r e.8 ∙ ap₂ answer (ap (is_fresh seen) e.6 ∙ fresh) e.7),
    )
