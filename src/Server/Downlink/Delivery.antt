-- ===== src/Server/Downlink/Delivery.antt =====
-- Which packets of a client reach the server's TUN device: the dispatch on the first byte, and the way
-- of a genuine packet.
use soulvpn.Base.{
  ℕ, ◌%◌, ◌^◌, ◌<◌, ◌≡◌, ◌≢◌, refl, ap, ◌∙◌, Bool, true, false, some, List, [], ◌∷◌, ◌++◌, length,
  get_or, lookup, SocketAddr, nat_eq, Result, ok, err, arith, ◌==◌, ltb, to_le_bytes, length-append,
}
use soulvpn.Packet.{is_ipv4, ipv4_src}
use soulvpn.Crypto.Noise.{Noise, NoiseLaws}
use soulvpn.Crypto.Replay.Refines.{is_fresh}
use soulvpn.Crypto.Session.{Session, encrypt, decrypt, header_index, header, max_message}
use soulvpn.Crypto.Session.Laws.{
  Flight, packet_of, answer, encrypt-framed, length-header, IsGenuine, IsReceiver, decrypt-answer,
  header_index-header,
}
use soulvpn.Stats.{Clock}
use soulvpn.Server.State.{LiveSession, Server}
use soulvpn.Server.Handshake.{handle_handshake}
use soulvpn.Server.Downlink.{write_tun, deliver, policy, act, received, on_data, on_udp, answered}

-- The first byte of a data packet is the low byte of its session index.
pub first_byte :
    (index nonce : ℕ) (ct : List ℕ)
    → (get_or (header index nonce ++ ct) 0 0 ≡ index % 256)
      × ((length (header index nonce ++ ct) == 0) ≡ false)
unfolding to_le_bytes
first_byte index nonce ct = (refl, ground arith)

-- A data packet of a session whose index has the low byte 1 is taken for a handshake: the server
-- never looks at the session, and writes nothing to its TUN device. This holds for every packet that
-- `encrypt` makes for the session.
pub encrypt-misrouted :
    {n : Noise} (private : List ℕ) (sv : Server n) (client : Session n) (plain packet : List ℕ)
    (room : ℕ) (src : SocketAddr) (now : Clock) (draws : List ℕ) (written : Bool)
    → client.index % 256 ≡ 1
    → (encrypt client plain room).1 ≡ ok packet
    → on_udp private sv packet src now draws written
      ≡ answered sv src (handle_handshake private sv packet src now draws)
unfolding on_udp
encrypt-misrouted private sv client plain packet room src now draws written low sent =
    let framed = encrypt-framed client plain room packet sent in
    let first = first_byte client.index client.send_nonce framed.0 in
    let low_byte : get_or packet 0 0 ≡ 1 = rw framed.1 (first.0 ∙ low) in
    let init : (get_or packet 0 0 == 1) ≡ true = ground (arith, low_byte) in
    let full : (length packet == 0) ≡ false = rw framed.1 first.1 in rw (full, init) refl

-- A packet with the source address of its session passes the policy.
policy-ipv4_src : (plain : List ℕ) (ip : ℕ) → ipv4_src plain ≡ some ip → policy plain ip ≡ deliver
unfolding policy ipv4_src is_ipv4
policy-ipv4_src plain ip from = ground (arith, from)

act-deliver :
    {n : Noise} (sv : Server n) (plain : List ℕ) (now : Clock) (written : Bool)
    → (act sv plain now written deliver).outputs ≡ write_tun plain ∷ []
act-deliver sv plain now true = refl
act-deliver sv plain now false = refl

received-delivers :
    {n : Noise} (sv : Server n) (index : ℕ) (live : LiveSession n) (src : SocketAddr) (now : Clock)
    (written : Bool) (r : Session n × Result (List ℕ)) (plain : List ℕ)
    → r.1 ≡ ok plain
    → ipv4_src plain ≡ some live.tunnel_ip
    → (received sv index live src now written r).outputs ≡ write_tun plain ∷ []
received-delivers sv index live src now written (session, err e) plain opened from = cc
received-delivers sv index live src now written (session, ok other) plain opened from =
    let same : other ≡ plain = ground arith in
    let passes : policy other live.tunnel_ip ≡ deliver =
      policy-ipv4_src other live.tunnel_ip (rw same from) in
    rw passes (act-deliver _ other now written ∙ ap (λ p. write_tun p ∷ []) same)

-- A data packet is longer than its header.
packet_of-long : (index : ℕ) (f : Flight) → ltb (length (packet_of index f)) 12 ≡ false
packet_of-long index f =
    ground (arith, length-append (header index f.nonce) f.ct, length-header index f.nonce)

other_byte : {a b : ℕ} → a ≡ b → b ≢ 1 → (a == 1) ≡ false
other_byte h ne = ground arith

-- A data packet of a live session whose index has another low byte is opened by that session.
pub on_udp-received :
    {n : Noise} (private : List ℕ) (sv : Server n) (live : LiveSession n) (f : Flight)
    (src : SocketAddr) (now : Clock) (draws : List ℕ) (written : Bool)
    → lookup live.session.index sv.state.by_index ≡ some live
    → live.session.index % 256 ≢ 1
    → sv.stats.enabled ≡ true
    → live.session.index < 2 ^ 32
    → on_udp private sv (packet_of live.session.index f) src now draws written
      ≡ received sv live.session.index live src now written
          (decrypt live.session (packet_of live.session.index f) max_message)
unfolding on_udp on_data
on_udp-received private sv live f src now draws written known high on small =
    let index : ℕ = live.session.index in
    let first = first_byte index f.nonce f.ct in
    let byte : get_or (packet_of index f) 0 0 ≡ index % 256 = first.0 in
    let full : (length (packet_of index f) == 0) ≡ false = first.1 in
    let data_packet : (get_or (packet_of index f) 0 0 == 1) ≡ false = other_byte byte high in
    let same : header_index (packet_of index f) ≡ index =
      header_index-header index f.nonce f.ct small in
    simp (full, data_packet, on, packet_of-long index f, same, known) refl

-- A genuine packet of a session whose index has another low byte, with a nonce that is fresh, and
-- with an IPv4 packet from the session's own address in it, is written to the TUN device as long as
-- the data plane is enabled.
pub on_udp-delivers :
    {n : Noise} (laws : NoiseLaws n) (private : List ℕ) (sv : Server n) (live : LiveSession n)
    (seen : List ℕ) (f : Flight) (src : SocketAddr) (now : Clock) (draws : List ℕ) (written : Bool)
    → lookup live.session.index sv.state.by_index ≡ some live
    → live.session.index % 256 ≢ 1
    → sv.stats.enabled ≡ true
    → IsReceiver laws live.session seen
    → IsGenuine laws live.session.transport max_message f
    → is_fresh seen f.nonce ≡ true
    → ipv4_src f.plain ≡ some live.tunnel_ip
    → (on_udp private sv (packet_of live.session.index f) src now draws written).outputs
      ≡ write_tun f.plain ∷ []
on_udp-delivers laws private sv live seen f src now draws written known high on r g fresh from =
    let opens = decrypt live.session (packet_of live.session.index f) max_message in
    ap (λ round. round.outputs)
      (on_udp-received private sv live f src now draws written known high on r.index_lt)
    ∙ received-delivers sv live.session.index live src now written opens f.plain
        (decrypt-answer laws r g ∙ ap (λ b. answer b f.plain) fresh) from
