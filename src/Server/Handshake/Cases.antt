-- ===== src/Server/Handshake/Cases.antt =====
-- The ways that a handshake goes: refused, or at the entry of a session into the tables.
use soulvpn.Base.{
  ℕ, ◌≡◌, ◌≢◌, refl, sym, Option, none, some, List, lookup, contains_key, contains_key-eq-false,
  nat_eq, bytes_eq, arith, Option-cases, Bool-cases, inl, inr, Result, Error, ok, err, [], ◌∷◌,
  ◌++◌, to_le_bytes, SocketAddr,
}
use soulvpn.Crypto.Noise.{Noise}
use soulvpn.Crypto.Session.{Session, remote_static}
use soulvpn.Crypto.Handshake.{responder_finish}
use soulvpn.Crypto.Handshake.Laws.{responder_finish-index}
use soulvpn.Stats.{Clock}
use soulvpn.Server.RateLimit.{allow}
use soulvpn.Crypto.Handshake.{responder_new}
use soulvpn.Server.State.{PeerMeta, State, Server, alloc_index, publish}
use soulvpn.Server.Invariant.{IsWellFormed}
use soulvpn.Server.Handshake.Tables.{
  evict-IsWellFormed, enter-IsWellFormed, evict-by_ip, evict-peers,
}
use soulvpn.Server.Handshake.{
  evict, install, known_peer, finished, respond, handle_handshake, live_session,
}

module _ {n : Noise} (sv : Server n) (inv : IsWellFormed sv.state) (src : SocketAddr) (now : Clock)
    (index : ℕ) (session : Session n) (response : List ℕ) (same : session.index ≡ index) where
  pub install-IsWellFormed :
      (key : List ℕ) (peer : PeerMeta)
      → lookup key sv.state.peers ≡ some peer
      → IsWellFormed (install sv src now index session response peer).0.state
  unfolding install publish
  install-IsWellFormed key peer known =
      let ip : ℕ = peer.tunnel_ip in
      let st = evict ip sv.state in
      let live = live_session session src ip now.instant in
      elim (Bool-cases (contains_key index st.by_index)) [
        | inl taken ↦ rw taken (evict-IsWellFormed inv ip)
        | inr free ↦ rw free (
            enter-IsWellFormed (evict-IsWellFormed inv ip) index live
              (contains_key-eq-false index st.by_index free) (evict-by_ip ip sv.state) same
              (key, peer, rw (evict-peers ip sv.state) known, refl))
      ]

-- The result of a call that has returned.
abbrev pub After :
    {n : Noise}
    → (Server n → Result (List ℕ) → Type 0)
    → Option (Server n × Result (List ℕ))
    → Type 0
After P none = Unit {0}
After P (some (sv, r)) = P sv r

-- The state behind the rate limit.
abbrev pub admitted : {n : Noise} → Server n → SocketAddr → Clock → Server n
admitted sv src now = record sv {
  state = record (sv.state) { rate = (allow sv.state.rate src.ip now.instant).0 };
}

-- What is known when a session is entered into the tables.
pub record IsFinished {n : Noise} (sv : Server n) (index : ℕ) (session : Session n)
    (response key : List ℕ) (peer : PeerMeta) : Type 0 where
  pub free : lookup index sv.state.by_index ≡ none
  pub nonzero : index ≢ 0
  pub same : session.index ≡ index
  pub framed : (m : List ℕ) × (response ≡ 2 ∷ (to_le_bytes 4 index ++ m))
  pub identity : remote_static session ≡ some key
  pub known : lookup key sv.state.peers ≡ some peer

-- An index that is drawn is not in use.
alloc_index_free :
    {n : Noise} (st : State n) (draws : List ℕ) (index : ℕ)
    → alloc_index st draws ≡ some index
    → lookup index st.by_index ≡ none
unfolding alloc_index
alloc_index_free st [] index h = cc
alloc_index_free st (idx ∷ draws) index h = elim (Bool-cases (contains_key idx st.by_index)) [
  | inl taken ↦ alloc_index_free st draws index (ground arith)
  | inr unused ↦
      let same : idx ≡ index = ground arith in
      rw (sym same) (contains_key-eq-false idx st.by_index unused)
]

-- A property of a handshake holds if it holds where the call is refused, with only the rate limit
-- changed, and where the session of a known peer is installed.
module _ {n : Noise} (P : Server n → Result (List ℕ) → Type 0) (sv : Server n) (src : SocketAddr)
    (now : Clock) (refused : (e : Error) → P (admitted sv src now) (err e))
    (installed : (index : ℕ) (session : Session n) (response key : List ℕ) (peer : PeerMeta)
      → IsFinished sv index session response key peer
      → let r = install (admitted sv src now) src now index session response peer in
        P r.0 r.1) where
  known_peer_cases :
      (responder : n.Handshake) (msg : List ℕ) (index : ℕ) (session : Session n) (response : List ℕ)
      → lookup index sv.state.by_index ≡ none
      → responder_finish n responder msg index ≡ ok (session, response)
      → (remote : Option (List ℕ)) → remote_static session ≡ remote
      → let r = known_peer (admitted sv src now) src now index session response remote in P r.0 r.1
  known_peer_cases responder msg index session response free h none e = refused _
  known_peer_cases responder msg index session response free h (some key) e =
      let made = responder_finish-index n responder msg index session response h in
      elim (Option-cases (lookup key sv.state.peers)) [
        | inl unknown ↦ rw (unknown, known_peer) (refused _)
        | inr (peer, known) ↦
            rw (known, known_peer)
              (installed index session response key peer (record {
                free = free;
                nonzero = made.0;
                same = made.1;
                framed = made.2;
                identity = e;
                known = known;
              }))
      ]

  finished_cases :
      (responder : n.Handshake) (msg : List ℕ) (index : ℕ) (made : Result (Session n × List ℕ))
      → lookup index sv.state.by_index ≡ none
      → responder_finish n responder msg index ≡ made
      → let r = finished (admitted sv src now) src now index made in P r.0 r.1
  finished_cases responder msg index (err e) free h = refused e
  finished_cases responder msg index (ok (session, response)) free h =
      known_peer_cases responder msg index session response free h (remote_static session) refl

  respond_cases :
      (msg draws : List ℕ) (responder : Result n.Handshake)
      → After P (respond (admitted sv src now) msg src now draws responder)
  respond_cases msg draws (err e) = refused e
  respond_cases msg draws (ok responder) =
      elim (Option-cases (alloc_index (admitted sv src now).state draws)) [
        | inl pending ↦ rw (pending, respond) tt
        | inr (index, drawn) ↦
            rw (drawn, respond)
              (finished_cases responder msg index _
                (alloc_index_free (admitted sv src now).state draws index drawn) refl)
      ]

  pub handshake_cases :
      (private msg draws : List ℕ) → After P (handle_handshake private sv msg src now draws)
  unfolding handle_handshake
  handshake_cases private msg draws = elim (Bool-cases (allow sv.state.rate src.ip now.instant).1) [
    | inl passed ↦ rw passed (respond_cases msg draws (responder_new n private))
    | inr limited ↦ rw limited (refused _)
  ]
