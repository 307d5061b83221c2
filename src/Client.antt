-- ===== src/Client.antt =====
-- src/client.rs: the tasks of a connected client (lines 119-283) and its handshake (lines 301-335).
-- One round of a task is a function of what it receives; whether the send or write at its end succeeds
-- is an argument. The instants that a round reads are one clock.
pub mod Laws
pub mod Gate
pub mod Settings
pub mod Setup
use soulvpn.Base.{
  ℕ, zero, suc, ◌+◌, ◌-◌, ◌==◌, take, ◌>>=◌, Bool, true, false, not, ◌&&◌, ◌||◌, Option, none, some,
  List, [], ◌∷◌, length, max, ltb, leb, if◌then◌else◌, Result, ok, err, bail,
}
use soulvpn.Crypto.Noise.{Noise}
use soulvpn.Crypto.Session.{Session, encrypt, decrypt, max_message}
use soulvpn.Crypto.Handshake.{initiator_new, write_init, initiator_finish}
use soulvpn.Stats.{
  Clock, RuntimeStats, from_secs, is_enabled, touch_activity, record_tx, record_rx,
  record_encrypt_err, record_decrypt_err, record_handshake_ok, record_handshake_fail,
  record_reconnect,
}

pub record SessionSlot (n : Noise) : Type 0 where
  pub session : Session n
  pub established : ℕ
  pub last_rx : ℕ
  pub last_tx : ℕ

-- The state that the tasks share.
pub record Client (n : Noise) : Type 0 where
  pub slot : SessionSlot n
  pub stats : RuntimeStats

-- What a round hands to the outside: a datagram to the server, or a packet to the TUN device.
pub data Output : Type 0 where
  send : List ℕ → Output
  write_tun : List ℕ → Output

pub record Round (n : Noise) : Type 0 where
  pub client : Client n
  pub outputs : List Output
  pub running : Bool

abbrev pub quiet : {n : Noise} → Client n → Round n
quiet c = record { client = c; outputs = []; running = true }

abbrev pub with_slot : {n : Noise} → SessionSlot n → Client n → Client n
with_slot slot c = record c { slot = slot }

abbrev pub with_stats : {n : Noise} → (RuntimeStats → RuntimeStats) → Client n → Client n
with_stats f c = record c { stats = f c.stats }

-- Lines 138-154.
abbrev pub sealed :
    {n : Noise} → Client n → List ℕ → Clock → Bool → Session n × Result (List ℕ) → Round n
sealed c plain now sent (session, err e) =
    quiet (with_stats record_encrypt_err (with_slot (record (c.slot) { session = session }) c))
sealed c plain now true (session, ok wire) = record {
  client =
      with_stats (record_tx (length plain) now)
        (with_slot (record (c.slot) { session = session; last_tx = now.instant }) c);
  outputs = send wire ∷ [];
  running = true;
}
sealed c plain now false (session, ok wire) = record {
  client = with_slot (record (c.slot) { session = session; last_tx = now.instant }) c;
  outputs = send wire ∷ [];
  running = false;
}

-- A packet from the TUN device.
unfoldable pub on_tun : {n : Noise} → Client n → List ℕ → Clock → Bool → Round n
on_tun c plain now sent =
    if length plain == 0
    then record { client = c; outputs = []; running = false }
    else if not (is_enabled c.stats)
    then quiet c
    else sealed c plain now sent (encrypt (c.slot).session plain max_message)

-- Lines 186-196.
abbrev pub passed_on : {n : Noise} → Client n → List ℕ → Clock → Bool → Round n
passed_on c plain now true = record {
  client = with_stats (record_rx (length plain) now) c;
  outputs = write_tun plain ∷ [];
  running = true;
}
passed_on c plain now false = record { client = c; outputs = write_tun plain ∷ []; running = false }

-- Lines 182-202.
abbrev pub opened : {n : Noise} → Client n → Clock → Bool → Session n × Result (List ℕ) → Round n
opened c now written (session, err e) =
    quiet (with_stats record_decrypt_err (with_slot (record (c.slot) { session = session }) c))
opened c now written (session, ok plain) =
    let c' = with_slot (record (c.slot) { session = session; last_rx = now.instant }) c in
    if length plain == 0
    then quiet (with_stats (touch_activity now) c')
    else passed_on c' plain now written

-- A datagram from the server.
unfoldable pub on_udp : {n : Noise} → Client n → List ℕ → Clock → Bool → Round n
on_udp c wire now written =
    if not (is_enabled c.stats)
    then quiet c
    else opened c now written (decrypt (c.slot).session wire max_message)

-- What one attempt of a handshake comes to: sending fails, the wait ends without an answer, by a timeout
-- or an error of the socket, or an answer comes.
pub data Attempt : Type 0 where
  not_sent no_answer : Attempt
  answered : List ℕ → Attempt

abbrev pub handshake_attempts : ℕ
handshake_attempts = 10

abbrev pub first_ok : {n : Noise} → Result (Session n) → Result (Session n) → Result (Session n)
first_ok (ok session) other = ok session
first_ok (err e) other = other

module _ (n : Noise) (private server_public : List ℕ) where
  -- Lines 323-332: `other` is what the attempts after this one come to.
  abbrev pub finish_attempt : n.Handshake → Result (Session n) → Attempt → Result (Session n)
  finish_attempt init other not_sent = err (bail "send handshake init")
  finish_attempt init other no_answer = other
  finish_attempt init other (answered resp) =
      first_ok (initiator_finish n init (take 256 resp)) other

  -- The attempts that are left, from the number `attempt` on. `net` gives what comes of the message
  -- that an attempt sends.
  unfoldable pub attempts : (ℕ → List ℕ → Attempt) → ℕ → ℕ → Result (Session n)
  attempts net attempt zero = err (bail "handshake failed after 10 attempts")
  attempts net attempt (suc left) =
      let other = attempts net (attempt + 1) left in
      initiator_new n private server_public >>= λ init.
      let written = write_init n init 256 in
      written.1 >>= λ msg. finish_attempt written.0 other (net attempt msg)

  unfoldable pub handshake : (ℕ → List ℕ → Attempt) → Result (Session n)
  handshake net = attempts net 1 handshake_attempts

-- The times of the configuration, in seconds; 0 turns the first two off.
pub record Intervals : Type 0 where
  pub keepalive_secs : ℕ
  pub rekey_secs : ℕ
  pub reconnect_timeout_secs : ℕ

-- What a tick finds to do: lines 229-241.
pub record Needs : Type 0 where
  pub need_rekey : Bool
  pub need_reconnect : Bool
  pub need_keepalive : Bool

unfoldable pub needs : {n : Noise} → Intervals → SessionSlot n → ℕ → Needs
needs cfg slot now =
    let idle_rx = now - slot.last_rx in
    let idle_tx = now - slot.last_tx in
    let keepalive = from_secs cfg.keepalive_secs in
    record {
      need_rekey = ltb 0 cfg.rekey_secs && leb (from_secs cfg.rekey_secs) (now - slot.established);
      need_reconnect = leb (from_secs (max cfg.reconnect_timeout_secs 10)) idle_rx;
      need_keepalive = ltb 0 cfg.keepalive_secs && leb keepalive idle_tx && leb keepalive idle_rx;
    }

-- Lines 246-263, with the handshake's result and the time at its end.
abbrev pub renewed : {n : Noise} → Client n → Bool → Clock → Result (Session n) → Round n
renewed c need_reconnect later (err e) = quiet (with_stats record_handshake_fail c)
renewed c need_reconnect later (ok session) =
    let slot : SessionSlot _ = record {
      session = session;
      established = later.instant;
      last_rx = later.instant;
      last_tx = later.instant;
    } in
    let c' = with_stats (record_handshake_ok later) (with_slot slot c) in
    quiet (if need_reconnect then with_stats record_reconnect c' else c')

-- Lines 268-278; a failed send is only logged.
abbrev pub kept_alive : {n : Noise} → Client n → Clock → Session n × Result (List ℕ) → Round n
kept_alive c now (session, err e) = quiet (with_slot (record (c.slot) { session = session }) c)
kept_alive c now (session, ok wire) = record {
  client = with_slot (record (c.slot) { session = session; last_tx = now.instant }) c;
  outputs = send wire ∷ [];
  running = true;
}

-- One tick of the maintenance task; no other task runs during its handshake.
unfoldable pub upkeep :
    {n : Noise} → Intervals → Client n → Clock → Clock → Result (Session n) → Round n
upkeep cfg c now later shaken =
    if not (is_enabled c.stats)
    then quiet c
    else (let need = needs cfg c.slot now.instant in
        if need.need_rekey || need.need_reconnect
        then renewed c need.need_reconnect later shaken
        else if need.need_keepalive
        then kept_alive c now (encrypt (c.slot).session [] 64)
        else quiet c)
