-- ===== src/Server/Run/Identity.antt =====
-- Whose the sessions of the server are: each stays with the peer whose key was authenticated, in every round
-- of the tasks.
use soulvpn.Base.{
  ℕ, ◌≡◌, ◌∙◌, ap, Bool, Option, none, some, List, lookup, insert, nat_eq, bytes_eq, SocketAddr,
  Result, ok, err,
}
use soulvpn.Crypto.Noise.{Noise}
use soulvpn.Crypto.Session.{encrypt, decrypt, remote_static, header_index, max_message}
use soulvpn.Crypto.Session.Laws.{decrypt-index_eq, encrypt-index_eq}
use soulvpn.Stats.{Clock, RuntimeStats, set_enabled}
use soulvpn.Server.State.{LiveSession, Server}
use soulvpn.Server.Handshake.{handle_handshake}
use soulvpn.Server.Handshake.Cases.{After, admitted, handshake_cases}
use soulvpn.Server.Downlink.{on_udp, answered}
use soulvpn.Server.Downlink.Cases as Down
use soulvpn.Server.Downlink.Cases.{on_udp_cases, on_data_cases, Stored, received-Stored}
use soulvpn.Server.Uplink.{on_tun}
use soulvpn.Server.Uplink.Laws as Up
use soulvpn.Server.Uplink.Laws.{on_tun_cases, carried-Stored}
use soulvpn.Server.Run.{start, Step, Reachable, downlink, uplink, tick, control, started, then_step}
use soulvpn.Server.Run.Peers.{peer_table-Listed}
use soulvpn.Server.Run.Sessions.{
  KeepsRemote, AllOfPeers, decrypt-remote, encrypt-remote, down_entry, up_entry, reap-AllOfPeers,
  same-IsOfPeer, insert-AllOfPeers, admitted-AllOfPeers, install-AllOfPeers,
}

module _ {n : Noise} {cfg_peers : List (List ℕ × ℕ)} where
  answered-AllOfPeers :
      (sv : Server n) (src : SocketAddr) (r : Option (Server n × Result (List ℕ)))
      → AllOfPeers cfg_peers sv.state
      → After (λ sv' _. AllOfPeers cfg_peers sv'.state) r
      → AllOfPeers cfg_peers (answered sv src r).server.state
  answered-AllOfPeers sv src none all after = all
  answered-AllOfPeers sv src (some (sv', ok response)) all after = after
  answered-AllOfPeers sv src (some (sv', err e)) all after = after

  handshake-AllOfPeers :
      (private : List ℕ) (sv : Server n) (msg : List ℕ) (src : SocketAddr) (now : Clock)
      (draws : List ℕ)
      → AllOfPeers cfg_peers sv.state
      → After
          (λ sv' _. AllOfPeers cfg_peers sv'.state)
          (handle_handshake private sv msg src now draws)
  handshake-AllOfPeers private sv msg src now draws all =
      let all' = admitted-AllOfPeers sv src now all in
      handshake_cases (λ sv' _. AllOfPeers cfg_peers sv'.state) sv src now (λ _. all')
        (λ index session response key peer f.
          install-AllOfPeers (admitted sv src now) src now index session response key peer
            f.identity f.known all')
        private msg draws

  module _ (k : KeepsRemote n) where
    stored-AllOfPeers :
        (sv : Server n) (index : ℕ) (old new : LiveSession n)
        → lookup index sv.state.by_index ≡ some old
        → remote_static new.session ≡ remote_static old.session
        → new.tunnel_ip ≡ old.tunnel_ip
        → AllOfPeers cfg_peers sv.state
        → AllOfPeers cfg_peers (record (sv.state) { by_index = insert index new sv.state.by_index })
    stored-AllOfPeers sv index old new found remote ip all =
        insert-AllOfPeers sv.state index new
          (same-IsOfPeer cfg_peers old new remote ip (all.of_peer index old found)) all

    on_udp-AllOfPeers :
        (private : List ℕ) (sv : Server n) (buf : List ℕ) (src : SocketAddr) (now : Clock)
        (draws : List ℕ) (written : Bool)
        → AllOfPeers cfg_peers sv.state
        → AllOfPeers cfg_peers (on_udp private sv buf src now draws written).server.state
    on_udp-AllOfPeers private sv buf src now draws written all =
        on_udp_cases (λ r. AllOfPeers cfg_peers r.server.state) private sv buf src now draws written
          all
          (answered-AllOfPeers sv src (handle_handshake private sv buf src now draws) all
            (handshake-AllOfPeers private sv buf src now draws all))
          (on_data_cases (λ r. AllOfPeers cfg_peers r.server.state) sv buf src now written all
            (λ live on known.
              let r = decrypt live.session buf max_message in
              let same =
                Down.entry_after-same live src now r
                  (decrypt-index_eq live.session buf max_message) in
              rw (received-Stored sv (header_index buf) live src now written r) (
                stored-AllOfPeers sv (header_index buf) live (Down.entry_after live src now r) known
                  (ap remote_static (down_entry live src now r)
                    ∙ decrypt-remote k live.session buf max_message)
                  same.0 all)))

    on_tun-AllOfPeers :
        (sv : Server n) (plain : List ℕ) (now : Clock) (sent : Bool)
        → AllOfPeers cfg_peers sv.state
        → AllOfPeers cfg_peers (on_tun sv plain now sent).server.state
    on_tun-AllOfPeers sv plain now sent all =
        on_tun_cases (λ r. AllOfPeers cfg_peers r.server.state) sv plain now sent all all
          λ dst index live to owned found.
            let r = encrypt live.session plain max_message in
            let same =
              Up.entry_after-same live now r (encrypt-index_eq live.session plain max_message) in
            rw (carried-Stored sv plain now sent index live r) (
              stored-AllOfPeers sv index live (Up.entry_after live now r) found
                (ap remote_static (up_entry live now r)
                  ∙ encrypt-remote k live.session plain max_message)
                same.0 all)

    Step-AllOfPeers :
        {private : List ℕ} {idle_secs : ℕ} {sv sv' : Server n}
        → Step private idle_secs sv sv'
        → AllOfPeers cfg_peers sv.state
        → AllOfPeers cfg_peers sv'.state
    unfolding set_enabled
    Step-AllOfPeers {private = private} (downlink sv buf src now draws written) all =
        on_udp-AllOfPeers private sv buf src now draws written all
    Step-AllOfPeers (uplink sv plain now sent) all = on_tun-AllOfPeers sv plain now sent all
    Step-AllOfPeers {idle_secs = idle_secs} (tick sv now) all = reap-AllOfPeers idle_secs now sv all
    Step-AllOfPeers (control sv on now) all = all

    pub Reachable-AllOfPeers :
        {private : List ℕ} {idle_secs : ℕ} {first sv : Server n}
        → Reachable private idle_secs first sv
        → AllOfPeers cfg_peers first.state
        → AllOfPeers cfg_peers sv.state
    Reachable-AllOfPeers started all = all
    Reachable-AllOfPeers (then_step before step) all =
        Step-AllOfPeers step (Reachable-AllOfPeers before all)

pub start-AllOfPeers :
    {n : Noise} (cfg_peers : List (List ℕ × ℕ)) (limit window : ℕ) (stats : RuntimeStats)
    → AllOfPeers cfg_peers (start {n = n} cfg_peers limit window stats).state
unfolding start lookup
start-AllOfPeers cfg_peers limit window stats = record {
  known = λ key peer h. peer_table-Listed cfg_peers key peer h;
  of_peer = λ index live h. cc;
}
