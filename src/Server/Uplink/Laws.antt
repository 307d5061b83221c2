-- ===== src/Server/Uplink/Laws.antt =====
-- The guarantees of the task from the TUN device to the socket.
use soulvpn.Base.{
  ℕ, ◌≡◌, refl, sym, subst, Bool, true, false, Option, none, some, List, [], ◌∷◌, length, lookup,
  nat_eq, Result, ok, err, arith, Bool-cases, inl, inr, ◌==◌, SocketAddr,
}
use soulvpn.Packet.{ipv4_dst}
use soulvpn.Crypto.Noise.{Noise}
use soulvpn.Crypto.Session.{Session, encrypt, max_message}
use soulvpn.Crypto.Session.Laws.{encrypt-index_eq}
use soulvpn.Stats.{Clock}
use soulvpn.Server.State.{LiveSession, Server}
use soulvpn.Server.Invariant.{IsWellFormed, IsConfigured, update-IsWellFormed}
use soulvpn.Server.Downlink.{Output, send_to, write_tun, Round, break, quiet}
use soulvpn.Server.Downlink.Cases.{Stored}
use soulvpn.Server.Uplink.{on_tun, find_route, routed, addressed, carried, sent_stats}

-- What a route found in the tables is.
abbrev IsRoute : {n : Noise} → Server n → ℕ → ℕ → LiveSession n → Type 0
IsRoute sv dst index live =
    (lookup dst sv.state.by_ip ≡ some index) × (lookup index sv.state.by_index ≡ some live)

find_route_cases :
    {n : Noise} (sv : Server n) (dst index : ℕ) (live : LiveSession n)
    → find_route sv dst ≡ some (index, live)
    → IsRoute sv dst index live
unfolding find_route
find_route_cases sv dst index live h = ground arith

-- A property of a round holds if it holds of the rounds that do nothing, and of the round on a packet
-- to the address of a session.
module _ {n : Noise} (P : Round n → Type 0) (sv : Server n) (plain : List ℕ) (now : Clock)
    (sent : Bool) (ended : P (record { server = sv; outputs = []; flow = break }))
    (ignored : P (quiet sv))
    (handled : (dst index : ℕ) (live : LiveSession n)
      → ipv4_dst plain ≡ some dst
      → lookup dst sv.state.by_ip ≡ some index
      → lookup index sv.state.by_index ≡ some live
      → P (carried sv plain now sent index live (encrypt live.session plain max_message))) where
  routed_cases :
      (dst : ℕ)
      → ipv4_dst plain ≡ some dst
      → (route : Option (ℕ × LiveSession n)) → find_route sv dst ≡ route
      → P (routed sv plain now sent route)
  routed_cases dst to none h = ignored
  routed_cases dst to (some (index, live)) h =
      let route = find_route_cases sv dst index live h in handled dst index live to route.0 route.1

  addressed_cases : (to : Option ℕ) → ipv4_dst plain ≡ to → P (addressed sv plain now sent to)
  addressed_cases none h = ignored
  addressed_cases (some dst) h = routed_cases dst h (find_route sv dst) refl

  pub on_tun_cases : P (on_tun sv plain now sent)
  unfolding on_tun
  on_tun_cases = elim (Bool-cases (length plain == 0)) [
    | inl empty ↦ rw empty ended
    | inr full ↦ elim (Bool-cases sv.stats.enabled) [
      | inr off ↦ simp (full, off) ignored
      | inl on ↦ simp (full, on) (addressed_cases (ipv4_dst plain) refl)
    ]
  ]

-- The entry after a packet: only a packet that was sealed counts as activity.
abbrev pub entry_after :
    {n : Noise} → LiveSession n → Clock → Session n × Result (List ℕ) → LiveSession n
entry_after live now (session, err e) = record live { session = session }
entry_after live now (session, ok wire) = record live { session = session; last_seen = now.instant }

sent_stats-state :
    {n : Noise} (plain : List ℕ) (now : Clock) (sent : Bool) (sv : Server n)
    → (sent_stats plain now sent sv).state ≡ sv.state
sent_stats-state plain now true sv = refl
sent_stats-state plain now false sv = refl

pub carried-Stored :
    {n : Noise} (sv : Server n) (plain : List ℕ) (now : Clock) (sent : Bool) (index : ℕ)
    (live : LiveSession n) (r : Session n × Result (List ℕ))
    → Stored sv index (entry_after live now r) (carried sv plain now sent index live r)
carried-Stored sv plain now sent index live (session, err e) = refl
carried-Stored sv plain now sent index live (session, ok wire) = sent_stats-state plain now sent _

pub entry_after-same :
    {n : Noise} (live : LiveSession n) (now : Clock) (r : Session n × Result (List ℕ))
    → r.0.index ≡ live.session.index
    → ((entry_after live now r).tunnel_ip ≡ live.tunnel_ip)
      × ((entry_after live now r).session.index ≡ live.session.index)
entry_after-same live now (session, err e) h = (refl, h)
entry_after-same live now (session, ok wire) h = (refl, h)

-- Whatever is read from the device, a round of the loop keeps the tables well formed.
pub on_tun-IsWellFormed :
    {n : Noise} (sv : Server n) (plain : List ℕ) (now : Clock) (sent : Bool)
    → IsWellFormed sv.state
    → IsWellFormed (on_tun sv plain now sent).server.state
on_tun-IsWellFormed sv plain now sent inv =
    on_tun_cases (λ r. IsWellFormed r.server.state) sv plain now sent inv inv
      λ dst index live to owned found.
        let r = encrypt live.session plain max_message in
        let same = entry_after-same live now r (encrypt-index_eq live.session plain max_message) in
        rw (carried-Stored sv plain now sent index live r)
          (update-IsWellFormed inv index live (entry_after live now r) found same.0 same.1)

-- `P` holds of every datagram that a round sends, and it writes nothing to the device.
abbrev pub Sends : (List ℕ → SocketAddr → Type 0) → List Output → Type 0
Sends P [] = Unit {0}
Sends P (write_tun plain ∷ outputs) = ⊥
Sends P (send_to wire addr ∷ outputs) = P wire addr × Sends P outputs

-- The datagram is the packet, sealed by the session that owns its destination, to that session's
-- endpoint.
abbrev pub IsRouted : {n : Noise} → Server n → List ℕ → List ℕ → SocketAddr → Type 0
IsRouted {n} sv plain wire addr =
    (live : LiveSession n) × (ipv4_dst plain ≡ some live.tunnel_ip)
    × (lookup live.session.index sv.state.by_index ≡ some live)
    × ((encrypt live.session plain max_message).1 ≡ ok wire)
    × (addr ≡ live.peer_addr)
    × IsConfigured sv.state live.tunnel_ip

carried-Sends :
    {n : Noise} (P : List ℕ → SocketAddr → Type 0) (sv : Server n) (plain : List ℕ) (now : Clock)
    (sent : Bool) (index : ℕ) (live : LiveSession n) (r : Session n × Result (List ℕ))
    → ((wire : List ℕ) → r.1 ≡ ok wire → P wire live.peer_addr)
    → Sends P (carried sv plain now sent index live r).outputs
carried-Sends P sv plain now sent index live (session, err e) h = tt
carried-Sends P sv plain now sent index live (session, ok wire) h = (h wire refl, tt)

-- No misdelivery: all that a packet from the TUN device makes the server send is that packet, sealed
-- by the one session whose tunnel address is the packet's destination, to that session's endpoint,
-- and the address is that of a configured peer.
pub on_tun-IsRouted :
    {n : Noise} (sv : Server n) (plain : List ℕ) (now : Clock) (sent : Bool)
    → IsWellFormed sv.state
    → Sends (IsRouted sv plain) (on_tun sv plain now sent).outputs
on_tun-IsRouted sv plain now sent inv =
    on_tun_cases (λ r. Sends (IsRouted sv plain) r.outputs) sv plain now sent tt tt
      λ dst index live to owned found.
        let entry = inv.ip_to_index dst index owned in
        let same : entry.0 ≡ live = ground (arith, entry.1, found) in
        let ip : live.tunnel_ip ≡ dst = ground (arith, entry.2, same) in
        let key : live.session.index ≡ index = (inv.index_to_ip index live found).1 in
        carried-Sends (IsRouted sv plain) sv plain now sent index live
          (encrypt live.session plain max_message)
          λ wire sealed. (
            live,
            rw ip to,
            subst (λ j. lookup j sv.state.by_index ≡ some live) (sym key) found,
            sealed,
            refl,
            inv.configured index live found,
          )
