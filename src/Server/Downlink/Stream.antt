-- ===== src/Server/Downlink/Stream.antt =====
-- What the server makes of all the data packets of one session, as they arrive.
use soulvpn.Base.{
  ℕ, ◌%◌, ◌≡◌, ◌≢◌, refl, sym, ap, ap₂, subst, ◌∙◌, true, some, List, [], ◌∷◌, ◌++◌, map, lookup,
  insert, lookup-insert, nat_eq, SocketAddr, Result, ok, err, arith,
}
use soulvpn.Crypto.Noise.{Noise, NoiseLaws}
use soulvpn.Crypto.Replay.Refines.{accept}
use soulvpn.Crypto.Session.{Session, decrypt, max_message}
use soulvpn.Crypto.Session.Laws.{
  Flight, packet_of, IsGenuine, IsReceiver, decrypt-answer, decrypt-IsReceiver, decrypt-index,
}
use soulvpn.Crypto.Session.Delivery.{delivered, AllGenuine, AllGenuine-decrypt}
use soulvpn.Stats.{Clock, record_rx, record_policy_drop, record_decrypt_err, touch_activity}
use soulvpn.Server.State.{LiveSession, Server}
use soulvpn.Server.Downlink.{
  Output, write_tun, Verdict, keepalive, deliver, drop_packet, policy, act, received, on_udp,
}
use soulvpn.Server.Downlink.Cases.{entry_after, entry_after-same, received-Stored}
use soulvpn.Server.Downlink.Delivery.{on_udp-received}

-- What is to be written for a packet, and for the results of opening a stream.
abbrev on_verdict : List ℕ → Verdict → List Output
on_verdict plain keepalive = []
on_verdict plain deliver = write_tun plain ∷ []
on_verdict plain drop_packet = []

abbrev forwarded : ℕ → Result (List ℕ) → List Output
forwarded tunnel_ip (ok plain) = on_verdict plain (policy plain tunnel_ip)
forwarded tunnel_ip (err e) = []

abbrev pub forwarded_all : ℕ → List (Result (List ℕ)) → List Output
forwarded_all tunnel_ip [] = []
forwarded_all tunnel_ip (r ∷ rs) = forwarded tunnel_ip r ++ forwarded_all tunnel_ip rs

act-on_verdict :
    {n : Noise} (sv : Server n) (plain : List ℕ) (now : Clock) (v : Verdict)
    → (act sv plain now true v).outputs ≡ on_verdict plain v
act-on_verdict sv plain now keepalive = refl
act-on_verdict sv plain now deliver = refl
act-on_verdict sv plain now drop_packet = refl

act-enabled :
    {n : Noise} (sv : Server n) (plain : List ℕ) (now : Clock) (v : Verdict)
    → (act sv plain now true v).server.stats.enabled ≡ sv.stats.enabled
unfolding record_rx record_policy_drop touch_activity
act-enabled sv plain now keepalive = refl
act-enabled sv plain now deliver = refl
act-enabled sv plain now drop_packet = refl

module _ {n : Noise} (sv : Server n) (index : ℕ) (live : LiveSession n) (src : SocketAddr)
    (now : Clock) where
  received-forwarded :
      (r : Session n × Result (List ℕ))
      → (received sv index live src now true r).outputs ≡ forwarded live.tunnel_ip r.1
  received-forwarded (session, ok plain) = act-on_verdict _ plain now (policy plain live.tunnel_ip)
  received-forwarded (session, err e) = refl

  received-enabled :
      (r : Session n × Result (List ℕ))
      → (received sv index live src now true r).server.stats.enabled ≡ sv.stats.enabled
  unfolding record_decrypt_err
  received-enabled (session, ok plain) = act-enabled _ plain now (policy plain live.tunnel_ip)
  received-enabled (session, err e) = refl

entry_after-session :
    {n : Noise} (live : LiveSession n) (src : SocketAddr) (now : Clock)
    (r : Session n × Result (List ℕ))
    → (entry_after live src now r).session ≡ r.0
entry_after-session live src now (session, ok plain) = refl
entry_after-session live src now (session, err e) = refl

-- The server finds the session, and does not take its packets for handshakes.
pub record IsLive {n : Noise} (sv : Server n) (live : LiveSession n) : Type 0 where
  pub known : lookup live.session.index sv.state.by_index ≡ some live
  pub no_init : live.session.index % 256 ≢ 1
  pub server_on : sv.stats.enabled ≡ true

-- A packet as it arrives.
pub record Arrival : Type 0 where
  pub flight : Flight
  pub src : SocketAddr
  pub now : Clock

-- The outputs of the rounds for packets of the session `index`, one after the other.
pub on_udp_all : {n : Noise} → List ℕ → Server n → ℕ → List Arrival → List Output
on_udp_all private sv index [] = []
on_udp_all private sv index (a ∷ rest) =
    let round = on_udp private sv (packet_of index a.flight) a.src a.now [] true in
    round.outputs ++ on_udp_all private round.server index rest

abbrev pub flights : List Arrival → List Flight
flights = map (λ a. a.flight)

module _ {n : Noise} (laws : NoiseLaws n) (private : List ℕ) where
  module _ {sv : Server n} {live : LiveSession n} {seen : List ℕ} (a : Arrival)
      (on : IsLive sv live) (r : IsReceiver laws live.session seen)
      (g : IsGenuine laws live.session.transport max_message a.flight) where
    abbrev opening : Session n × Result (List ℕ)
    opening = decrypt live.session (packet_of live.session.index a.flight) max_message

    abbrev entry : LiveSession n
    entry = entry_after live a.src a.now opening

    round_received :
        on_udp private sv (packet_of live.session.index a.flight) a.src a.now [] true
        ≡ received sv live.session.index live a.src a.now true opening
    round_received =
        on_udp-received private sv live a.flight a.src a.now [] true on.known on.no_init
          on.server_on r.index_lt

    same : (entry.tunnel_ip ≡ live.tunnel_ip) × (entry.session.index ≡ live.session.index)
    same = entry_after-same live a.src a.now opening (decrypt-index laws r g)

    IsLive-received :
        IsLive (received sv live.session.index live a.src a.now true opening).server entry
    IsLive-received =
        let index = live.session.index in
        let stored =
          ap (λ st. lookup index st.by_index)
            (received-Stored sv index live a.src a.now true opening) in
        let found : lookup index (insert index entry sv.state.by_index) ≡ some entry =
          ground (arith, lookup-insert index index entry sv.state.by_index) in
        record {
          known = rw same.1 (stored ∙ found);
          no_init = subst (λ j. j % 256 ≢ 1) (sym same.1) on.no_init;
          server_on = received-enabled sv index live a.src a.now opening ∙ on.server_on;
        }

    IsReceiver-entry : IsReceiver laws entry.session (accept seen a.flight.nonce)
    IsReceiver-entry =
        subst (λ s. IsReceiver laws s (accept seen a.flight.nonce))
          (sym (entry_after-session live a.src a.now opening)) (decrypt-IsReceiver laws r g)

  -- Over any sequence of genuine packets of one session, with any losses, repetitions and changes of
  -- order, and from any addresses, the server writes to its TUN device, in the order of arrival, what
  -- the specification of the session delivers and the source policy lets pass, and nothing else. The
  -- session's index must not have the low byte 1, the data plane is enabled and all writes succeed.
  pub on_udp_all-delivered :
      (arrivals : List Arrival) {sv : Server n} {live : LiveSession n} {seen : List ℕ}
      → IsLive sv live
      → IsReceiver laws live.session seen
      → AllGenuine laws live.session.transport max_message (flights arrivals)
      → on_udp_all private sv live.session.index arrivals
        ≡ forwarded_all live.tunnel_ip (delivered seen (flights arrivals))
  unfolding on_udp_all
  on_udp_all-delivered [] on r all = refl
  on_udp_all-delivered (a ∷ rest) {sv} {live} {seen} on r all =
      let index : ℕ = live.session.index in
      let here = opening a on r all.0 in
      let live' : LiveSession n = entry a on r all.0 in
      let kept = same a on r all.0 in
      let next : Server n = (received sv index live a.src a.now true here).server in
      let genuine : AllGenuine laws live'.session.transport max_message (flights rest) =
        subst (λ s. AllGenuine laws s.transport max_message (flights rest))
          (sym (entry_after-session live a.src a.now here))
          (AllGenuine-decrypt laws (flights rest) r all.0 all.1) in
      let later =
        on_udp_all-delivered rest (IsLive-received a on r all.0) (IsReceiver-entry a on r all.0)
          genuine in
      let after : on_udp_all private next index rest
          ≡ forwarded_all live.tunnel_ip (delivered (accept seen a.flight.nonce) (flights rest)) =
        rw (kept.0, kept.1) at later in
      let opens =
        received-forwarded sv index live a.src a.now here
        ∙ ap (forwarded live.tunnel_ip) (decrypt-answer laws r all.0) in
      ap (λ round. round.outputs ++ on_udp_all private round.server index rest)
        (round_received a on r all.0)
      ∙ ap₂ ◌++◌ opens after
