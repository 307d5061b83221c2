-- ===== src/Server/Run/Sessions.antt =====
-- The sessions in the server's tables and the peers that they belong to, and what a change of the tables
-- does to that.
use soulvpn.Base.{
  ◌-◌, drop, ℕ, ◌≡◌, refl, sym, ◌∙◌, subst, ap, some, List, [], ◌∷◌, lookup, insert, remove,
  contains_key, lookup-insert, lookup-remove, nat_eq, bytes_eq, ℕ_discrete, SocketAddr, Result, ok,
  err, arith, inl, inr, Option-cases, Bool-cases,
}
use soulvpn.Crypto.Noise.{Noise}
use soulvpn.Crypto.Session.{Session, encrypt, decrypt, remote_static, header_nonce}
use soulvpn.Stats.{Clock}
use soulvpn.Server.RateLimit.{gc}
use soulvpn.Server.State.{LiveSession, PeerMeta, State, Server, publish}
use soulvpn.Server.Handshake.{evict, enter, install, live_session}
use soulvpn.Server.Handshake.Tables.{evict-peers}
use soulvpn.Server.Handshake.Cases.{admitted}
use soulvpn.Server.Downlink.Cases as Down
use soulvpn.Server.Downlink.Cases.{on_udp_cases, on_data_cases, Stored, received-Stored}
use soulvpn.Server.Uplink.Laws as Up
use soulvpn.Server.Uplink.Laws.{on_tun_cases, carried-Stored}
use soulvpn.Server.Reaper.{stale, expire, expire_all, idle_of, reap}
use soulvpn.Server.Reaper.Laws.{listed, expire_all-by_index}
use soulvpn.Server.Run.Peers.{Listed}

-- What is relied on of a transport state: what it writes and reads does not change whose key the other
-- side has shown.
pub record KeepsRemote (n : Noise) : Type 0 where
  pub write :
      (t : n.Transport) (plain : List ℕ) (room : ℕ)
      → n.get_remote_static (n.write_message t plain room).0 ≡ n.get_remote_static t
  pub set :
      (t : n.Transport) (nonce : ℕ)
      → n.get_remote_static (n.set_receiving_nonce t nonce) ≡ n.get_remote_static t
  pub read :
      (t : n.Transport) (ct : List ℕ) (room : ℕ)
      → n.get_remote_static (n.read_message t ct room).0 ≡ n.get_remote_static t

-- The session is one of a configured peer: Noise has authenticated the peer's key, and the tunnel address
-- is the one that the configuration gives this key.
abbrev pub IsOfPeer : {n : Noise} → List (List ℕ × ℕ) → LiveSession n → Type 0
IsOfPeer cfg_peers live =
    (key : List ℕ) × (remote_static live.session ≡ some key) × Listed key live.tunnel_ip cfg_peers

pub record AllOfPeers {n : Noise} (cfg_peers : List (List ℕ × ℕ)) (st : State n) : Type 0 where
  pub known :
      (key : List ℕ) (peer : PeerMeta)
      → lookup key st.peers ≡ some peer
      → Listed key peer.tunnel_ip cfg_peers
  pub of_peer :
      (index : ℕ) (live : LiveSession n)
      → lookup index st.by_index ≡ some live
      → IsOfPeer cfg_peers live

module _ {n : Noise} (k : KeepsRemote n) where
  pub decrypt-remote :
      (s : Session n) (packet : List ℕ) (room : ℕ)
      → remote_static (decrypt s packet room).0 ≡ remote_static s
  unfolding decrypt remote_static
  decrypt-remote s packet room =
      let t = n.set_receiving_nonce s.transport (header_nonce packet) in
      ground (arith, k.read t (drop 12 packet) room, k.set s.transport (header_nonce packet))

  pub encrypt-remote :
      (s : Session n) (plain : List ℕ) (room : ℕ)
      → remote_static (encrypt s plain room).0 ≡ remote_static s
  unfolding encrypt remote_static
  encrypt-remote s plain room = ground (arith, k.write s.transport plain (room - 12))

module _ {n : Noise} where
  lookup-evict :
      (ip : ℕ) (st : State n) (j : ℕ) (live : LiveSession n)
      → lookup j (evict ip st).by_index ≡ some live
      → lookup j st.by_index ≡ some live
  unfolding evict lookup
  lookup-evict ip st j live h = elim (Option-cases (lookup ip st.by_ip)) [
    | inl absent ↦ rw (absent, evict) at h
    | inr (old, found) ↦
        let h' : lookup j (remove old st.by_index) ≡ some live = rw (found, evict) at h in
        ground (arith, h', lookup-remove old j st.by_index)
  ]

  expire_all-peers : (l : List (ℕ × ℕ)) (st : State n) → (expire_all l st).peers ≡ st.peers
  unfolding expire_all expire
  expire_all-peers [] st = refl
  expire_all-peers ((index, tip) ∷ rest) st = expire_all-peers rest (expire index tip st)

  pub down_entry :
      (live : LiveSession n) (src : SocketAddr) (now : Clock) (r : Session n × Result (List ℕ))
      → (Down.entry_after live src now r).session ≡ r.0
  down_entry live src now (session, ok plain) = refl
  down_entry live src now (session, err e) = refl

  pub up_entry :
      (live : LiveSession n) (now : Clock) (r : Session n × Result (List ℕ))
      → (Up.entry_after live now r).session ≡ r.0
  up_entry live now (session, ok wire) = refl
  up_entry live now (session, err e) = refl

  pub same-IsOfPeer :
      (cfg_peers : List (List ℕ × ℕ)) (old new : LiveSession n)
      → remote_static new.session ≡ remote_static old.session
      → new.tunnel_ip ≡ old.tunnel_ip
      → IsOfPeer cfg_peers old
      → IsOfPeer cfg_peers new
  same-IsOfPeer cfg_peers old new remote ip (key, shown, listed) =
      (key, remote ∙ shown, subst (λ i. Listed key i cfg_peers) (sym ip) listed)

module _ {n : Noise} {cfg_peers : List (List ℕ × ℕ)} where
  -- Some sessions are gone.
  fewer-AllOfPeers :
      (st st' : State n)
      → st'.peers ≡ st.peers
      → ((index : ℕ) (live : LiveSession n)
          → lookup index st'.by_index ≡ some live
          → lookup index st.by_index ≡ some live)
      → AllOfPeers cfg_peers st
      → AllOfPeers cfg_peers st'
  fewer-AllOfPeers st st' peers sub all = record {
    known = λ key peer h. all.known key peer (ap (lookup key) (sym peers) ∙ h);
    of_peer = λ index live h. all.of_peer index live (sub index live h);
  }

  -- One more stands in the table, or another in place of one.
  pub insert-AllOfPeers :
      (st : State n) (index : ℕ) (new : LiveSession n)
      → IsOfPeer cfg_peers new
      → AllOfPeers cfg_peers st
      → AllOfPeers cfg_peers (record st { by_index = insert index new st.by_index })
  insert-AllOfPeers st index new mine all = record {
    known = all.known;
    of_peer = λ j live h. elim (ℕ_discrete index j) [
      | yes e ↦
          let same : new ≡ live = ground (arith, h, lookup-insert index j new st.by_index) in
          subst (IsOfPeer cfg_peers) same mine
      | no ne ↦ all.of_peer j live (ground (arith, h, lookup-insert index j new st.by_index))
    ];
  }

  evict-AllOfPeers :
      (ip : ℕ) (st : State n) → AllOfPeers cfg_peers st → AllOfPeers cfg_peers (evict ip st)
  evict-AllOfPeers ip st =
      fewer-AllOfPeers st (evict ip st) (evict-peers ip st) (lookup-evict ip st)

  pub reap-AllOfPeers :
      (idle_secs now : ℕ) (sv : Server n)
      → AllOfPeers cfg_peers sv.state
      → AllOfPeers cfg_peers (reap idle_secs now sv).state
  unfolding reap publish
  reap-AllOfPeers idle_secs now sv all =
      let st : State n = record (sv.state) { rate = gc sv.state.rate now } in
      let l = stale now (idle_of idle_secs) st.by_index in
      fewer-AllOfPeers sv.state (expire_all l st) (expire_all-peers l st)
        (λ index live h. ground (arith, h, expire_all-by_index l st index)) all

  pub admitted-AllOfPeers :
      (sv : Server n) (src : SocketAddr) (now : Clock)
      → AllOfPeers cfg_peers sv.state
      → AllOfPeers cfg_peers (admitted sv src now).state
  admitted-AllOfPeers sv src now all = record { known = all.known; of_peer = all.of_peer }

  pub install-AllOfPeers :
      (sv : Server n) (src : SocketAddr) (now : Clock) (index : ℕ) (session : Session n)
      (response key : List ℕ) (peer : PeerMeta)
      → remote_static session ≡ some key
      → lookup key sv.state.peers ≡ some peer
      → AllOfPeers cfg_peers sv.state
      → AllOfPeers cfg_peers (install sv src now index session response peer).0.state
  unfolding install publish enter
  install-AllOfPeers sv src now index session response key peer shown known all =
      let ip : ℕ = peer.tunnel_ip in
      let st = evict ip sv.state in
      let live = live_session session src ip now.instant in
      let kept : AllOfPeers cfg_peers st = evict-AllOfPeers ip sv.state all in
      elim (Bool-cases (contains_key index st.by_index)) [
        | inl taken ↦ rw taken kept
        | inr free ↦
            let more =
              insert-AllOfPeers st index live (key, shown, all.known key peer known) kept in
            rw free (record { known = more.known; of_peer = more.of_peer })
      ]
