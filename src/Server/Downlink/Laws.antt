-- ===== src/Server/Downlink/Laws.antt =====
-- What the task from the socket to the TUN device guarantees.
use soulvpn.Base.{
  Error, subst, ap, length, get_or, ◌==◌, ℕ, ◌≡◌, refl, sym, Bool, true, false, Option, none, some,
  List, [], ◌∷◌, lookup, insert, lookup-insert, ℕ_discrete, SocketAddr, nat_eq, Result, ok, err,
  arith, inl, inr, ◌⊎◌,
}
use soulvpn.Packet.{ipv4_src}
use soulvpn.Crypto.Noise.{Noise}
use soulvpn.Crypto.Session.Laws.{decrypt-index_eq}
use soulvpn.Crypto.Session.{Session, decrypt, header_index, max_message}
use soulvpn.Stats.{Clock, record_handshake_fail}
use soulvpn.Server.State.{LiveSession, Server}
use soulvpn.Server.Invariant.{IsWellFormed, update-IsWellFormed}
use soulvpn.Server.Handshake.{handle_handshake}
use soulvpn.Server.Handshake.Cases.{After, admitted}
use soulvpn.Server.Handshake.Laws.{
  handle_handshake-IsWellFormed, IsRefused, handle_handshake-IsRefused,
}
use soulvpn.Server.Downlink.Cases.{
  policy-deliver, on_data_cases, on_udp_cases, entry_after, received-Stored, entry_after-same,
}
use soulvpn.Server.Downlink.{
  Output, write_tun, send_to, Verdict, keepalive, deliver, drop_packet, policy, act, received,
  on_data, on_udp, answered, quiet, with_stats,
}

-- Carrying a data packet, whatever it holds, keeps the tables well formed.
pub on_data-IsWellFormed :
    {n : Noise} (sv : Server n) (buf : List ℕ) (src : SocketAddr) (now : Clock) (written : Bool)
    → IsWellFormed sv.state
    → IsWellFormed (on_data sv buf src now written).server.state
on_data-IsWellFormed sv buf src now written inv =
    on_data_cases (λ r. IsWellFormed r.server.state) sv buf src now written inv
      λ live on known.
        let r = decrypt live.session buf max_message in
        let same =
          entry_after-same live src now r (decrypt-index_eq live.session buf max_message) in
        rw (received-Stored sv (header_index buf) live src now written r) (
          update-IsWellFormed inv (header_index buf) live (entry_after live src now r) known same.0
            same.1)

pub answered-IsWellFormed :
    {n : Noise} (sv : Server n) (src : SocketAddr) (r : Option (Server n × Result (List ℕ)))
    → IsWellFormed sv.state
    → After (λ sv' _. IsWellFormed sv'.state) r
    → IsWellFormed (answered sv src r).server.state
answered-IsWellFormed sv src none inv after = inv
answered-IsWellFormed sv src (some (sv', ok response)) inv after = after
answered-IsWellFormed sv src (some (sv', err e)) inv after = after

-- Whatever datagram arrives, a round of the loop keeps the tables well formed.
pub on_udp-IsWellFormed :
    {n : Noise} (private : List ℕ) (sv : Server n) (buf : List ℕ) (src : SocketAddr) (now : Clock)
    (draws : List ℕ) (written : Bool)
    → IsWellFormed sv.state
    → IsWellFormed (on_udp private sv buf src now draws written).server.state
on_udp-IsWellFormed private sv buf src now draws written inv =
    on_udp_cases (λ r. IsWellFormed r.server.state) private sv buf src now draws written inv
      (answered-IsWellFormed sv src (handle_handshake private sv buf src now draws) inv
        (handle_handshake-IsWellFormed private sv buf src now draws inv))
      (on_data-IsWellFormed sv buf src now written inv)

-- `P` holds of every packet that a round writes to the device.
abbrev pub Writes : (List ℕ → Type 0) → List Output → Type 0
Writes P [] = Unit {0}
Writes P (write_tun plain ∷ outputs) = P plain × Writes P outputs
Writes P (send_to response addr ∷ outputs) = Writes P outputs

-- A packet that a session may send into the network: it came in authentic on the session of its
-- source address.
abbrev pub IsAuthorized : {n : Noise} → Server n → List ℕ → List ℕ → Type 0
IsAuthorized {n} sv buf plain =
    (live : LiveSession n) × (lookup (header_index buf) sv.state.by_index ≡ some live)
    × ((decrypt live.session buf max_message).1 ≡ ok plain)
    × (ipv4_src plain ≡ some live.tunnel_ip)

act-Writes :
    {n : Noise} (P : List ℕ → Type 0) (sv : Server n) (plain : List ℕ) (now : Clock)
    (written : Bool) (v : Verdict)
    → (v ≡ deliver → P plain)
    → Writes P (act sv plain now written v).outputs
act-Writes P sv plain now written keepalive h = tt
act-Writes P sv plain now written drop_packet h = tt
act-Writes P sv plain now true deliver h = (h refl, tt)
act-Writes P sv plain now false deliver h = (h refl, tt)

received-Writes :
    {n : Noise} (P : List ℕ → Type 0) (sv : Server n) (index : ℕ) (live : LiveSession n)
    (src : SocketAddr) (now : Clock) (written : Bool) (r : Session n × Result (List ℕ))
    → ((plain : List ℕ) → r.1 ≡ ok plain → ipv4_src plain ≡ some live.tunnel_ip → P plain)
    → Writes P (received sv index live src now written r).outputs
received-Writes P sv index live src now written (session, err e) h = tt
received-Writes P sv index live src now written (session, ok plain) h =
    act-Writes P _ plain now written (policy plain live.tunnel_ip)
      λ d. h plain refl (policy-deliver plain live.tunnel_ip d)

answered-Writes :
    {n : Noise} (P : List ℕ → Type 0) (sv : Server n) (src : SocketAddr)
    (r : Option (Server n × Result (List ℕ)))
    → Writes P (answered sv src r).outputs
answered-Writes P sv src none = tt
answered-Writes P sv src (some (sv', ok response)) = tt
answered-Writes P sv src (some (sv', err e)) = tt

on_data-Writes :
    {n : Noise} (sv : Server n) (buf : List ℕ) (src : SocketAddr) (now : Clock) (written : Bool)
    → Writes (IsAuthorized sv buf) (on_data sv buf src now written).outputs
on_data-Writes sv buf src now written =
    on_data_cases (λ r. Writes (IsAuthorized sv buf) r.outputs) sv buf src now written tt
      λ live on known.
        received-Writes (IsAuthorized sv buf) sv (header_index buf) live src now written
          (decrypt live.session buf max_message) λ plain opened from. (live, known, opened, from)

-- No spoofing: every packet that a datagram makes the server write to its TUN device came in on a
-- session that stands in the tables and authenticated it, and the packet's source address is the tunnel
-- address of that session.
pub on_udp-IsAuthorized :
    {n : Noise} (private : List ℕ) (sv : Server n) (buf : List ℕ) (src : SocketAddr) (now : Clock)
    (draws : List ℕ) (written : Bool)
    → Writes (IsAuthorized sv buf) (on_udp private sv buf src now draws written).outputs
on_udp-IsAuthorized private sv buf src now draws written =
    on_udp_cases (λ r. Writes (IsAuthorized sv buf) r.outputs) private sv buf src now draws written
      tt
      (answered-Writes (IsAuthorized sv buf) sv src (handle_handshake private sv buf src now draws))
      (on_data-Writes sv buf src now written)

entry_after-peer_addr :
    {n : Noise} (live : LiveSession n) (src : SocketAddr) (now : Clock)
    (r : Session n × Result (List ℕ))
    → ((entry_after live src now r).peer_addr ≡ live.peer_addr)
      ⊎ (((entry_after live src now r).peer_addr ≡ src) × ((plain : List ℕ) × (r.1 ≡ ok plain)))
entry_after-peer_addr live src now (session, err e) = inl refl
entry_after-peer_addr live src now (session, ok plain) = inr (refl, (plain, refl))

-- Where the endpoint of an entry comes from: it is the old one, or the source of an authentic packet.
abbrev pub IsTraced : {n : Noise} → Server n → List ℕ → SocketAddr → ℕ → LiveSession n → Type 0
IsTraced {n} sv buf src index live' =
    (live : LiveSession n) × (lookup index sv.state.by_index ≡ some live)
    × ((live'.peer_addr ≡ live.peer_addr)
        ⊎ ((live'.peer_addr ≡ src)
            × ((plain : List ℕ) × ((decrypt live.session buf max_message).1 ≡ ok plain))))

-- Roaming: after a data packet each session is one that stood in the tables before, and its endpoint
-- is unchanged, or the session authenticated the packet and the endpoint is the packet's source.
pub on_data-peer_addr :
    {n : Noise} (sv : Server n) (buf : List ℕ) (src : SocketAddr) (now : Clock) (written : Bool)
    (index : ℕ) (live' : LiveSession n)
    → lookup index (on_data sv buf src now written).server.state.by_index ≡ some live'
    → IsTraced sv buf src index live'
on_data-peer_addr {n} sv buf src now written index live' =
    on_data_cases
      (λ r. lookup index r.server.state.by_index ≡ some live' → IsTraced sv buf src index live') sv
      buf src now written (λ h. (live', h, inl refl))
      λ live on known h.
        let hi : ℕ = header_index buf in
        let r = decrypt live.session buf max_message in
        let new : LiveSession n = entry_after live src now r in
        let found : lookup index (insert hi new sv.state.by_index) ≡ some live' =
          rw (received-Stored sv hi live src now written r) at h in
        elim (ℕ_discrete hi index) [
          | yes e ↦
              let same : new ≡ live' =
                ground (arith, found, lookup-insert hi index new sv.state.by_index) in
              (live, rw (sym e) known, rw (sym same) (entry_after-peer_addr live src now r))
          | no ne ↦
              (live', ground (arith, found, lookup-insert hi index new sv.state.by_index), inl refl)
        ]

-- A round on a handshake message that is refused, for whatever reason, puts out nothing and changes
-- nothing but the rate limiter and the statistics, which count a failed handshake.
pub on_udp-refused :
    {n : Noise} (private : List ℕ) (sv sv' : Server n) (buf : List ℕ) (src : SocketAddr)
    (now : Clock) (draws : List ℕ) (written : Bool) (e : Error)
    → (length buf == 0) ≡ false
    → get_or buf 0 0 ≡ 1
    → handle_handshake private sv buf src now draws ≡ some (sv', err e)
    → on_udp private sv buf src now draws written
      ≡ quiet (with_stats record_handshake_fail (admitted sv src now))
unfolding on_udp
on_udp-refused private sv sv' buf src now draws written e full first refused =
    let init : (get_or buf 0 0 == 1) ≡ true = ground (arith, first) in
    let same : sv' ≡ admitted sv src now =
      subst (After (IsRefused sv src now)) refused
        (handle_handshake-IsRefused private sv buf src now draws) in
    rw (full, init, refused) (ap (λ s. quiet (with_stats record_handshake_fail s)) same)
