-- ===== src/Server/Downlink/Cases.antt =====
-- The branches of a round of the task from the socket to the TUN device.
use soulvpn.Base.{
  ℕ, ◌≡◌, refl, Bool, true, false, some, List, length, get_or, lookup, insert, SocketAddr, nat_eq,
  Result, ok, err, arith, Option-cases, Bool-cases, inl, inr, ◌==◌, ltb,
}
use soulvpn.Packet.{ipv4_src}
use soulvpn.Crypto.Noise.{Noise}
use soulvpn.Crypto.Session.{Session, decrypt, header_index, max_message}
use soulvpn.Stats.{Clock}
use soulvpn.Server.State.{LiveSession, Server}
use soulvpn.Server.Handshake.{handle_handshake}
use soulvpn.Server.Downlink.{
  Round, Verdict, keepalive, deliver, drop_packet, policy, act, received, on_data, on_udp, answered,
  quiet,
}

-- The policy delivers exactly the IPv4 packets whose source is the address of the session.
pub policy-deliver :
    (plain : List ℕ) (ip : ℕ) → policy plain ip ≡ deliver → ipv4_src plain ≡ some ip
unfolding policy
policy-deliver plain ip h = ground arith

-- A property of a round on a data packet holds if it holds of a round that does nothing, and of the
-- round on a packet for a known session.
module _ {n : Noise} (P : Round n → Type 0) (sv : Server n) (buf : List ℕ) (src : SocketAddr)
    (now : Clock) (written : Bool) (ignored : P (quiet sv))
    (handled : (live : LiveSession n)
      → sv.stats.enabled ≡ true
      → lookup (header_index buf) sv.state.by_index ≡ some live
      → P (
          received sv
            (header_index buf)
            live
            src
            now
            written
            (decrypt live.session buf max_message))) where
  pub on_data_cases : P (on_data sv buf src now written)
  unfolding on_data
  on_data_cases = elim (Bool-cases sv.stats.enabled) [
    | inr off ↦ simp off ignored
    | inl on ↦ elim (Bool-cases (ltb (length buf) 12)) [
      | inl short ↦ simp (on, short) ignored
      | inr long ↦ elim (Option-cases (lookup (header_index buf) sv.state.by_index)) [
        | inl unknown ↦ simp (on, long, unknown) ignored
        | inr (live, known) ↦ simp (on, long, known) (handled live on known)
      ]
    ]
  ]

pub act-state :
    {n : Noise} (sv : Server n) (plain : List ℕ) (now : Clock) (written : Bool) (v : Verdict)
    → (act sv plain now written v).server.state ≡ sv.state
act-state sv plain now written keepalive = refl
act-state sv plain now written drop_packet = refl
act-state sv plain now true deliver = refl
act-state sv plain now false deliver = refl

-- A round that only carries a packet leaves the tables as they are but for the session's entry.
abbrev pub Stored : {n : Noise} → Server n → ℕ → LiveSession n → Round n → Type 0
Stored sv index live r =
    r.server.state ≡ record (sv.state) { by_index = insert index live sv.state.by_index }

-- The entry after a packet: the endpoint and the time move only if the packet was authentic.
abbrev pub entry_after :
    {n : Noise} → LiveSession n → SocketAddr → Clock → Session n × Result (List ℕ) → LiveSession n
entry_after live src now (session, err e) = record live { session = session }
entry_after live src now (session, ok plain) = record live {
  session = session;
  peer_addr = src;
  last_seen = now.instant;
}

pub received-Stored :
    {n : Noise} (sv : Server n) (index : ℕ) (live : LiveSession n) (src : SocketAddr) (now : Clock)
    (written : Bool) (r : Session n × Result (List ℕ))
    → Stored sv index (entry_after live src now r) (received sv index live src now written r)
received-Stored sv index live src now written (session, err e) = refl
received-Stored sv index live src now written (session, ok plain) =
    act-state _ plain now written (policy plain live.tunnel_ip)

pub entry_after-same :
    {n : Noise} (live : LiveSession n) (src : SocketAddr) (now : Clock)
    (r : Session n × Result (List ℕ))
    → (r.0.index ≡ live.session.index)
    → ((entry_after live src now r).tunnel_ip ≡ live.tunnel_ip)
      × ((entry_after live src now r).session.index ≡ live.session.index)
entry_after-same live src now (session, err e) h = (refl, h)
entry_after-same live src now (session, ok plain) h = (refl, h)

-- A round on any datagram: empty, a handshake or data.
pub on_udp_cases :
    {n : Noise} (P : Round n → Type 0) (private : List ℕ) (sv : Server n) (buf : List ℕ)
    (src : SocketAddr) (now : Clock) (draws : List ℕ) (written : Bool)
    → P (quiet sv)
    → P (answered sv src (handle_handshake private sv buf src now draws))
    → P (on_data sv buf src now written)
    → P (on_udp private sv buf src now draws written)
unfolding on_udp
on_udp_cases P private sv buf src now draws written ignored shaken carried =
    elim (Bool-cases (length buf == 0)) [
      | inl empty ↦ rw empty ignored
      | inr full ↦ elim (Bool-cases (get_or buf 0 0 == 1)) [
        | inl init ↦ rw (full, init) shaken
        | inr other ↦ rw (full, other) carried
      ]
    ]
