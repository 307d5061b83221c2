-- ===== src/Tunnel/Alive.antt =====
-- The keepalive of src/client.rs and the reaper of src/server.rs together.
use soulvpn.Base.{
  ℕ, ◌+◌, ◌≤◌, ◌≡◌, refl, ap, ap₂, ◌∙◌, Bool, true, false, some, List, [], ◌∷◌, lookup, nat_eq,
  SocketAddr, Result, ok, err, arith, lookup-insert, kept, insert,
}
use soulvpn.Crypto.Noise.{Noise, NoiseLaws}
use soulvpn.Crypto.Session.{Session, encrypt, decrypt, max_message}
use soulvpn.Crypto.Session.Laws.{packet_of, answer, decrypt-answer}
use soulvpn.Stats.{Clock}
use soulvpn.Client.{Client, Intervals, needs, upkeep, kept_alive, send}
use soulvpn.Server.State.{LiveSession, Server}
use soulvpn.Server.Downlink.{on_udp}
use soulvpn.Server.Downlink.Cases.{entry_after, received-Stored}
use soulvpn.Server.Downlink.Delivery.{on_udp-received}
use soulvpn.Server.Downlink.Laws.{on_udp-IsWellFormed}
use soulvpn.Server.Invariant.{IsWellFormed}
use soulvpn.Server.Reaper.{idle_of, reap}
use soulvpn.Server.Reaper.Laws.{survives, reap-survives}
use soulvpn.Tunnel.{Connected, crosses}

-- The session as it stands after an authentic packet.
abbrev pub Refreshed : {n : Noise} → LiveSession n → SocketAddr → Clock → LiveSession n → Type 0
Refreshed live src now live' =
    (live'.peer_addr ≡ src) × (live'.last_seen ≡ now.instant) × (live'.tunnel_ip ≡ live.tunnel_ip)

entry_after-Refreshed :
    {n : Noise} (live : LiveSession n) (src : SocketAddr) (now : Clock) (plain : List ℕ)
    (r : Session n × Result (List ℕ))
    → r.1 ≡ ok plain
    → Refreshed live src now (entry_after live src now r)
entry_after-Refreshed live src now plain (session, err e) h = cc
entry_after-Refreshed live src now plain (session, ok other) h = (refl, refl, refl)

-- A session heard of within the idle time is found after a tick of the reaper.
reap-kept :
    {n : Noise} (session_idle_secs at index : ℕ) (sv : Server n) (live : LiveSession n)
    → IsWellFormed sv.state
    → lookup index sv.state.by_index ≡ some live
    → at ≤ live.last_seen + idle_of session_idle_secs
    → lookup index (reap session_idle_secs at sv).state.by_index ≡ some live
reap-kept session_idle_secs at index sv live inv found soon =
    let young : survives session_idle_secs at index live ≡ true = ground (arith, soon) in
    (reap-survives session_idle_secs at sv inv).0 index
    ∙ ap (kept (survives session_idle_secs at) index) found
    ∙ rw young refl

module _ {n : Noise} (laws : NoiseLaws n) where
  kept_alive-sends :
      (c : Client n) (now : Clock) (wire : List ℕ) (s : Session n) (r : Session n × Result (List ℕ))
      → r ≡ (s, ok wire)
      → (kept_alive c now r).outputs ≡ send wire ∷ []
  kept_alive-sends c now wire s r h = ap (λ x. (kept_alive c now x).outputs) h

  -- A client that has been silent for the keepalive interval, and whose session is neither too old nor
  -- given up, sends one datagram. The server that takes it in finds the session, at the address that
  -- the datagram came from, at each tick of the reaper within the idle time after its arrival.
  pub upkeep-survives :
      (private : List ℕ) (cfg : Intervals) (c : Client n) (sv : Server n) (live : LiveSession n)
      (shaken : Result (Session n)) (src : SocketAddr) (now later came : Clock) (draws : List ℕ)
      (written : Bool) (session_idle_secs at : ℕ)
      → Connected laws c sv live
      → IsWellFormed sv.state
      → (needs cfg c.slot now.instant).need_rekey ≡ false
      → (needs cfg c.slot now.instant).need_reconnect ≡ false
      → (needs cfg c.slot now.instant).need_keepalive ≡ true
      → at ≤ came.instant + idle_of session_idle_secs
      → (wire : List ℕ) × ((upkeep cfg c now later shaken).outputs ≡ send wire ∷ [])
        × ((live' : LiveSession n) × (lookup live.session.index
                (reap session_idle_secs at
                  (on_udp private sv wire src came draws written).server).state.by_index
              ≡ some live')
            × Refreshed live src came live')
  unfolding upkeep
  upkeep-survives private cfg c sv live shaken src now later came draws written session_idle_secs at
        k inv young heard idle soon =
      let (s', f, made, content, fresh, genuine) =
        crosses laws c.slot.session live.session [] 64 k.forth k.same (omega arith) (omega arith) in
      let index = live.session.index in
      let wire = packet_of index f in
      let r = decrypt live.session wire max_message in
      let opens : r.1 ≡ ok [] =
        decrypt-answer laws (k.forth).receiver genuine ∙ ap₂ answer fresh content in
      let live' = entry_after live src came r in
      let fresh_entry = entry_after-Refreshed live src came [] r opens in
      let round = on_udp private sv wire src came draws written in
      let stored : round.server.state.by_index ≡ insert index live' sv.state.by_index =
        ap (λ q. q.server.state.by_index)
          (on_udp-received private sv live f src came draws written k.known k.no_init k.server_on
            (k.forth).receiver.index_lt)
        ∙ ap (λ st. st.by_index) (received-Stored sv index live src came written r) in
      let found : lookup index round.server.state.by_index ≡ some live' =
        rw stored (ground (arith, lookup-insert index index live' sv.state.by_index)) in
      (
        wire,
        simp (k.client_on, young, heard, idle)
            (kept_alive-sends c now wire s' (encrypt c.slot.session [] 64) made),
        (
          live',
          reap-kept session_idle_secs at index round.server live'
              (on_udp-IsWellFormed private sv wire src came draws written inv) found
              (rw fresh_entry.1 soon),
          fresh_entry,
        ),
      )
