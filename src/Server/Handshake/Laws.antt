-- ===== src/Server/Handshake/Laws.antt =====
-- What a handshake does to the server's tables.
use soulvpn.Base.{
  ℕ, ◌≡◌, ◌≢◌, refl, false, some, List, lookup, contains_key, lookup-insert, nat_eq, bytes_eq,
  arith, Bool-cases, inl, inr, Result, ok, err, ◌∷◌, ◌++◌, to_le_bytes, SocketAddr,
}
use soulvpn.Crypto.Noise.{Noise}
use soulvpn.Crypto.Session.{Session, remote_static}
use soulvpn.Stats.{Clock}
use soulvpn.Server.State.{LiveSession, PeerMeta, Server, publish}
use soulvpn.Server.Invariant.{IsWellFormed}
use soulvpn.Server.Handshake.Tables.{evict_free, rate-IsWellFormed}
use soulvpn.Server.Handshake.{evict, enter, install, handle_handshake, live_session}
use soulvpn.Server.Handshake.Cases.{
  After, admitted, IsFinished, handshake_cases, install-IsWellFormed,
}

-- Whatever message arrives, and whatever Noise makes of it, a handshake keeps the tables well formed.
pub handle_handshake-IsWellFormed :
    {n : Noise} (private : List ℕ) (sv : Server n) (msg : List ℕ) (src : SocketAddr) (now : Clock)
    (draws : List ℕ)
    → IsWellFormed sv.state
    → After (λ sv' _. IsWellFormed sv'.state) (handle_handshake private sv msg src now draws)
handle_handshake-IsWellFormed {n} private sv msg src now draws inv =
    let inv' = rate-IsWellFormed (admitted sv src now).state.rate inv in
    handshake_cases (λ sv' _. IsWellFormed sv'.state) sv src now (λ _. inv')
      (λ index session response key peer f.
        install-IsWellFormed (admitted sv src now) inv' src now index session response f.same key
          peer f.known)
      private msg draws

-- A session stands in the tables for the answer that was given.
abbrev pub IsEstablished :
    {n : Noise} → Server n → SocketAddr → Clock → Server n → Result (List ℕ) → Type 0
IsEstablished sv src now sv' (err e) = Unit {0}
IsEstablished {n} sv src now sv' (ok response) =
    (index : ℕ) × (live : LiveSession n) × (key : List ℕ) × (peer : PeerMeta) × (lookup index
        sv'.state.by_index
      ≡ some live)
    × (lookup peer.tunnel_ip sv'.state.by_ip ≡ some index)
    × (live.tunnel_ip ≡ peer.tunnel_ip)
    × (remote_static live.session ≡ some key)
    × (lookup key sv.state.peers ≡ some peer)
    × (live.peer_addr ≡ src)
    × (live.session.index ≡ index)
    × (index ≢ 0)
    × ((m : List ℕ) × (response ≡ 2 ∷ (to_le_bytes 4 index ++ m)))

install-IsEstablished :
    {n : Noise} (sv : Server n) (src : SocketAddr) (now : Clock) (index : ℕ) (session : Session n)
    (response key : List ℕ) (peer : PeerMeta)
    → IsFinished sv index session response key peer
    → let r = install (admitted sv src now) src now index session response peer in
      IsEstablished sv src now r.0 r.1
unfolding install publish enter
install-IsEstablished sv src now index session response key peer f =
    let st = evict peer.tunnel_ip (admitted sv src now).state in
    let live = live_session session src peer.tunnel_ip now.instant in
    elim (Bool-cases (contains_key index st.by_index)) [
      | inl taken ↦ rw taken tt
      | inr free ↦ rw free (
        index,
        live,
        key,
        peer,
        ground (arith, lookup-insert index index live st.by_index),
        ground (arith, lookup-insert peer.tunnel_ip peer.tunnel_ip index st.by_ip),
        refl,
        f.identity,
        f.known,
        refl,
        f.same,
        f.nonzero,
        f.framed,
      )
    ]

-- A handshake that is answered has entered a session under a nonzero index, which is the one in the
-- answer, for the address of the peer whose key Noise authenticated, and that peer is configured;
-- packets of the session go to the source of the handshake.
pub handle_handshake-IsEstablished :
    {n : Noise} (private : List ℕ) (sv : Server n) (msg : List ℕ) (src : SocketAddr) (now : Clock)
    (draws : List ℕ)
    → After (IsEstablished sv src now) (handle_handshake private sv msg src now draws)
handle_handshake-IsEstablished {n} private sv msg src now draws =
    handshake_cases (IsEstablished sv src now) sv src now (λ _. tt)
      (install-IsEstablished sv src now) private msg draws

-- What an unanswered handshake leaves behind.
abbrev pub IsRefused :
    {n : Noise} → Server n → SocketAddr → Clock → Server n → Result (List ℕ) → Type 0
IsRefused sv src now sv' (ok response) = Unit {0}
IsRefused sv src now sv' (err e) = sv' ≡ admitted sv src now

install-IsRefused :
    {n : Noise} (sv : Server n) (src : SocketAddr) (now : Clock) (index : ℕ) (session : Session n)
    (response key : List ℕ) (peer : PeerMeta)
    → IsFinished sv index session response key peer
    → let r = install (admitted sv src now) src now index session response peer in
      IsRefused sv src now r.0 r.1
unfolding install
install-IsRefused sv src now index session response key peer f =
    let free : contains_key index (evict peer.tunnel_ip (admitted sv src now).state).by_index
        ≡ false =
      evict_free peer.tunnel_ip index (admitted sv src now).state f.free in
    rw free tt

-- A handshake that is refused changes the rate limiter and nothing else.
pub handle_handshake-IsRefused :
    {n : Noise} (private : List ℕ) (sv : Server n) (msg : List ℕ) (src : SocketAddr) (now : Clock)
    (draws : List ℕ)
    → After (IsRefused sv src now) (handle_handshake private sv msg src now draws)
handle_handshake-IsRefused {n} private sv msg src now draws =
    handshake_cases (IsRefused sv src now) sv src now (λ _. refl) (install-IsRefused sv src now)
      private msg draws
