-- ===== src/Tunnel.antt =====
-- The two programs together: a packet's way from the TUN device of src/client.rs to that of src/server.rs,
-- and back.
pub mod Alive
use soulvpn.Base.{
  ℕ, ◌+◌, ◌%◌, ◌^◌, ◌≤◌, ◌<◌, ◌≡◌, ◌≢◌, refl, sym, ap, ap₂, ◌∙◌, Bool, true, false, some, List, [],
  ◌∷◌, length, lookup, nat_eq, SocketAddr, Result, ok, err, ◌==◌, arith,
}
use soulvpn.Packet.{is_ipv4, ipv4_src, ipv4_dst}
use soulvpn.Crypto.Noise.{Noise, NoiseLaws}
use soulvpn.Crypto.Replay.Refines.{is_fresh}
use soulvpn.Crypto.Session.{Session, encrypt, decrypt, max_message}
use soulvpn.Crypto.Session.Laws.{Flight, packet_of, answer, IsGenuine, IsReceiver, decrypt-answer}
use soulvpn.Crypto.Session.Delivery.{IsSender, encrypt-IsGenuine}
use soulvpn.Stats.{Clock}
use soulvpn.Server.State.{LiveSession, Server}
use soulvpn.Server.Downlink as Down
use soulvpn.Server.Downlink.{send_to}
use soulvpn.Server.Downlink.Delivery.{on_udp-delivers}
use soulvpn.Server.Uplink as Up
use soulvpn.Server.Uplink.{find_route}
use soulvpn.Client as Peer
use soulvpn.Client.{Client, send, sealed, passed_on, opened}

module _ {n : Noise} (laws : NoiseLaws n) where
  -- One end can send to the other: it holds the key by which the other receives, has numbers left, and
  -- the other has not seen the next one.
  pub record Reaches (from to : Session n) : Type 1 where
    pub seen : List ℕ
    pub sender : IsSender laws from to.transport
    pub numbers : from.send_nonce + 1 < 2 ^ 64
    pub receiver : IsReceiver laws to seen
    pub fresh : is_fresh seen from.send_nonce ≡ true

  -- A client and a session of the server that belong together, both enabled.
  pub record Connected (c : Client n) (sv : Server n) (live : LiveSession n) : Type 1 where
    pub known : lookup live.session.index sv.state.by_index ≡ some live
    pub routed : lookup live.tunnel_ip sv.state.by_ip ≡ some live.session.index
    pub same : c.slot.session.index ≡ live.session.index
    pub no_init : live.session.index % 256 ≢ 1
    pub client_on : c.stats.enabled ≡ true
    pub server_on : sv.stats.enabled ≡ true
    pub forth : Reaches c.slot.session live.session
    pub back : Reaches live.session c.slot.session

  -- A packet that fits is sealed as a flight that the other end opens.
  abbrev pub Crosses : (s t : Session n) → List ℕ → List ℕ → ℕ → Type 0
  Crosses s t seen plain room =
      (s' : Session n) × (f : Flight) × (encrypt s plain room ≡ (s', ok (packet_of t.index f)))
      × (f.plain ≡ plain)
      × (is_fresh seen f.nonce ≡ true)
      × IsGenuine laws t.transport max_message f

  pub crosses :
      (s t : Session n) (plain : List ℕ) (room : ℕ) (r : Reaches s t)
      → s.index ≡ t.index
      → length plain + 28 ≤ room
      → room ≤ max_message
      → Crosses s t r.seen plain room
  crosses s t plain room r same fits small =
      let (s', f, made, sender, index, count, nonce, content, genuine) =
        encrypt-IsGenuine laws s t.transport plain room max_message r.sender r.numbers
          (omega (arith, fits, small)) fits (omega (arith, fits, small)) in
      (
        s',
        f,
        made ∙ ap (λ j. (s', ok (packet_of j f))) same,
        content,
        ap (is_fresh r.seen) nonce ∙ r.fresh,
        genuine,
      )

  sealed-sends :
      (c : Client n) (plain wire : List ℕ) (now : Clock) (sent : Bool)
      (r : Session n × Result (List ℕ)) (s : Session n)
      → r ≡ (s, ok wire)
      → (sealed c plain now sent r).outputs ≡ send wire ∷ []
  sealed-sends c plain wire now true r s h = ap (λ x. (sealed c plain now true x).outputs) h
  sealed-sends c plain wire now false r s h = ap (λ x. (sealed c plain now false x).outputs) h

  carried-sends :
      (sv : Server n) (plain wire : List ℕ) (now : Clock) (sent : Bool) (index : ℕ)
      (live : LiveSession n) (r : Session n × Result (List ℕ)) (s : Session n)
      → r ≡ (s, ok wire)
      → (Up.carried sv plain now sent index live r).outputs ≡ send_to wire live.peer_addr ∷ []
  carried-sends sv plain wire now sent index live r s h =
      ap (λ x. (Up.carried sv plain now sent index live x).outputs) h

  passed_on-writes :
      (c : Client n) (plain : List ℕ) (now : Clock) (written : Bool)
      → (passed_on c plain now written).outputs ≡ Peer.write_tun plain ∷ []
  passed_on-writes c plain now true = refl
  passed_on-writes c plain now false = refl

  opened-writes :
      (c : Client n) (plain : List ℕ) (now : Clock) (written : Bool)
      (r : Session n × Result (List ℕ))
      → r.1 ≡ ok plain
      → (length plain == 0) ≡ false
      → (opened c now written r).outputs ≡ Peer.write_tun plain ∷ []
  opened-writes c plain now written (session, err e) h full = cc
  opened-writes c plain now written (session, ok other) h full =
      let same : other ≡ plain = cc in
      let full' : (length other == 0) ≡ false = ap (λ p. length p == 0) same ∙ full in
      simp full' (passed_on-writes _ other now written ∙ ap (λ p. Peer.write_tun p ∷ []) same)

  find_route-known :
      (sv : Server n) (ip index : ℕ) (live : LiveSession n)
      → lookup ip sv.state.by_ip ≡ some index
      → lookup index sv.state.by_index ≡ some live
      → find_route sv ip ≡ some (index, live)
  unfolding find_route
  find_route-known sv ip index live owned found = ground (arith, owned, found)

  ipv4_src-full : (plain : List ℕ) (ip : ℕ) → ipv4_src plain ≡ some ip → (length plain == 0) ≡ false
  unfolding ipv4_src is_ipv4
  ipv4_src-full plain ip h = ground (arith, h)

  ipv4_dst-full : (plain : List ℕ) (ip : ℕ) → ipv4_dst plain ≡ some ip → (length plain == 0) ≡ false
  unfolding ipv4_dst is_ipv4
  ipv4_dst-full plain ip h = ground (arith, h)

  client_to_server :
      (private : List ℕ) (c : Client n) (sv : Server n) (live : LiveSession n) (plain : List ℕ)
      (src : SocketAddr) (now later : Clock) (draws : List ℕ) (sent written : Bool)
      → Connected c sv live
      → length plain + 28 ≤ max_message
      → ipv4_src plain ≡ some live.tunnel_ip
      → (wire : List ℕ) × ((Peer.on_tun c plain now sent).outputs ≡ send wire ∷ [])
        × ((Down.on_udp private sv wire src later draws written).outputs
            ≡ Down.write_tun plain ∷ [])
  unfolding Peer.on_tun
  client_to_server private c sv live plain src now later draws sent written k fits from =
      let (s', f, made, content, fresh, genuine) =
        crosses c.slot.session live.session plain max_message k.forth k.same fits (omega arith) in
      let wire = packet_of live.session.index f in
      (
        wire,
        simp (ipv4_src-full plain live.tunnel_ip from, k.client_on)
            (sealed-sends c plain wire now sent (encrypt c.slot.session plain max_message) s' made),
        on_udp-delivers laws private sv live (k.forth).seen f src later draws written k.known
              k.no_init k.server_on (k.forth).receiver genuine fresh (ap ipv4_src content ∙ from)
            ∙ ap (λ p. Down.write_tun p ∷ []) content,
      )

  server_to_client :
      (c : Client n) (sv : Server n) (live : LiveSession n) (plain : List ℕ) (now later : Clock)
      (sent written : Bool)
      → Connected c sv live
      → length plain + 28 ≤ max_message
      → ipv4_dst plain ≡ some live.tunnel_ip
      → (wire : List ℕ) × ((Up.on_tun sv plain now sent).outputs ≡ send_to wire live.peer_addr ∷ [])
        × ((Peer.on_udp c wire later written).outputs ≡ Peer.write_tun plain ∷ [])
  unfolding Up.on_tun Peer.on_udp
  server_to_client c sv live plain now later sent written k fits to =
      let (s', f, made, content, fresh, genuine) =
        crosses live.session c.slot.session plain max_message k.back (sym k.same) fits
          (omega arith) in
      let wire = packet_of c.slot.session.index f in
      let full = ipv4_dst-full plain live.tunnel_ip to in
      let route = find_route-known sv live.tunnel_ip live.session.index live k.routed k.known in
      let opens : (decrypt c.slot.session wire max_message).1 ≡ ok plain =
        decrypt-answer laws (k.back).receiver genuine ∙ ap₂ answer fresh content in
      (
        wire,
        simp (full, k.server_on, to, route)
            (carried-sends sv plain wire now sent live.session.index live
              (encrypt live.session plain max_message) s' made),
        simp (k.client_on) (
            opened-writes c plain later written (decrypt c.slot.session wire max_message) opens
              full),
      )

  -- What is read from the TUN device at one end of a connected pair is written, unchanged, to the device
  -- at the other end, by the datagram that the first sends and whatever address it comes from: an IPv4
  -- packet from the client's own address to the server, and one to that address back to the client. It
  -- must fit a datagram, and the session's index must not have the low byte 1.
  pub carries :
      (private : List ℕ) (c : Client n) (sv : Server n) (live : LiveSession n)
      (plain reply : List ℕ) (src : SocketAddr) (now later : Clock) (draws : List ℕ)
      (sent written : Bool)
      → Connected c sv live
      → length plain + 28 ≤ max_message
      → length reply + 28 ≤ max_message
      → ipv4_src plain ≡ some live.tunnel_ip
      → ipv4_dst reply ≡ some live.tunnel_ip
      → ((wire : List ℕ) × ((Peer.on_tun c plain now sent).outputs ≡ send wire ∷ [])
          × ((Down.on_udp private sv wire src later draws written).outputs
              ≡ Down.write_tun plain ∷ []))
        × ((wire : List ℕ) × ((Up.on_tun sv reply now sent).outputs
              ≡ send_to wire live.peer_addr ∷ [])
            × ((Peer.on_udp c wire later written).outputs ≡ Peer.write_tun reply ∷ []))
  carries private c sv live plain reply src now later draws sent written k fits fits' from to = (
    client_to_server private c sv live plain src now later draws sent written k fits from,
    server_to_client c sv live reply now later sent written k fits' to,
  )
