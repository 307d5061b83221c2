-- ===== src/Server/Run/Peers.antt =====
-- The table of peers that the server builds from a configuration which passed the checks.
use soulvpn.Base.{
  ℕ, ◌≡◌, ◌≢◌, refl, ap, ◌∙◌, Bool, true, false, some, List, [], ◌∷◌, anyb, Map, lookup, insert,
  lookup-insert, list_beq, list_beq_iff, bytes_eq, ok, arith, ◌⊎◌, inl, inr, Bool-cases,
}
use soulvpn.Config.Chars.{Text}
use soulvpn.Config.{Env, server_load}
use soulvpn.Config.Toml.{ServerConfig}
use soulvpn.Config.Laws.{Entry, Decoded, AllNew, server_load-IsValid}
use soulvpn.Stats.{RuntimeStats}
use soulvpn.Crypto.Noise.{Noise}
use soulvpn.Server.State.{PeerMeta}
use soulvpn.Server.Run.{start, peer_table}

abbrev was_seen : List ℕ → List (List ℕ) → Bool
was_seen k keys = anyb (λ other. list_beq other k) keys

unequal : (k j : List ℕ) → k ≢ j → list_beq k j ≡ false
unequal k j h = ground (arith, (list_beq_iff k j).0)

-- A key that was seen keeps its entry: no later peer has it.
peer_table-seen :
    (server_ip network prefix : ℕ) (ips : List ℕ) (keys : List (List ℕ)) (entries : List Entry)
    (peers : Map (List ℕ) PeerMeta) (k : List ℕ)
    → AllNew server_ip network prefix ips keys entries
    → was_seen k keys ≡ true
    → lookup k (peer_table entries peers) ≡ lookup k peers
unfolding peer_table
peer_table-seen server_ip network prefix ips keys [] peers k new seen = refl
peer_table-seen server_ip network prefix ips keys ((key, tip) ∷ entries) peers k new seen =
    let later : lookup k (peer_table entries (insert key (record { tunnel_ip = tip }) peers))
        ≡ lookup k (insert key (record { tunnel_ip = tip }) peers) =
      peer_table-seen server_ip network prefix (tip ∷ ips) (key ∷ keys) entries
        (insert key (record { tunnel_ip = tip }) peers) k new.1 (ground arith) in
    let other : list_beq key k ≡ false =
      unequal key k
        (λ e. absurd (ground (arith, new.0.2, ap (λ (x : List ℕ). was_seen x keys) e))) in
    later ∙ ground (arith, lookup-insert key k (record { tunnel_ip = tip }) peers)

-- Each entry is found in the table.
abbrev pub Tabled : Map (List ℕ) PeerMeta → List Entry → Type 0
Tabled peers [] = Unit {0}
Tabled peers ((key, tip) ∷ entries) =
    (lookup key peers ≡ some (record { tunnel_ip = tip })) × Tabled peers entries

pub peer_table-Tabled :
    (server_ip network prefix : ℕ) (ips : List ℕ) (keys : List (List ℕ)) (entries : List Entry)
    (peers : Map (List ℕ) PeerMeta)
    → AllNew server_ip network prefix ips keys entries
    → Tabled (peer_table entries peers) entries
unfolding peer_table
peer_table-Tabled server_ip network prefix ips keys [] peers new = tt
peer_table-Tabled server_ip network prefix ips keys ((key, tip) ∷ entries) peers new =
    let same = (list_beq_iff key key).1 refl in
    (
      peer_table-seen server_ip network prefix (tip ∷ ips) (key ∷ keys) entries
            (insert key (record { tunnel_ip = tip }) peers) key new.1 (ground (arith, same))
          ∙ ground (arith, lookup-insert key key (record { tunnel_ip = tip }) peers, same),
      peer_table-Tabled server_ip network prefix (tip ∷ ips) (key ∷ keys) entries
          (insert key (record { tunnel_ip = tip }) peers) new.1,
    )

-- The configuration lists the key with the address.
abbrev pub Listed : List ℕ → ℕ → List Entry → Type 0
Listed key ip [] = ⊥
Listed key ip ((k, tip) ∷ entries) = ((k ≡ key) × (tip ≡ ip)) ⊎ Listed key ip entries

peer_table_cases :
    (entries : List Entry) (peers : Map (List ℕ) PeerMeta) (key : List ℕ) (peer : PeerMeta)
    → lookup key (peer_table entries peers) ≡ some peer
    → (lookup key peers ≡ some peer) ⊎ Listed key peer.tunnel_ip entries
unfolding peer_table
peer_table_cases [] peers key peer h = inl h
peer_table_cases ((k, tip) ∷ entries) peers key peer h =
    let meta : PeerMeta = record { tunnel_ip = tip } in
    elim (peer_table_cases entries (insert k meta peers) key peer h) [
      | inr later ↦ inr (inr later)
      | inl found ↦ elim (Bool-cases (list_beq k key)) [
        | inl same ↦
            let value : meta ≡ peer = ground (arith, found, lookup-insert k key meta peers, same) in
            inr (inl ((list_beq_iff k key).0 same, ap (λ (p : PeerMeta). p.tunnel_ip) value))
        | inr other ↦ inl (ground (arith, found, lookup-insert k key meta peers, other))
      ]
    ]

nothing : (key : List ℕ) (peer : PeerMeta) → lookup key [] ≡ some peer → ⊥
unfolding lookup
nothing key peer h = cc

-- The table has no other peers than the configured ones.
pub peer_table-Listed :
    (entries : List Entry) (key : List ℕ) (peer : PeerMeta)
    → lookup key (peer_table entries []) ≡ some peer
    → Listed key peer.tunnel_ip entries
peer_table-Listed entries key peer h = elim (peer_table_cases entries [] key peer h) [
  | inl found ↦ absurd (nothing key peer found)
  | inr listed ↦ listed
]

-- A server that starts from a configuration which `load` accepts finds under the key of each peer
-- exactly the tunnel address that the configuration gives it.
pub start-Tabled :
    (n : Noise) (env : Env) (path : Text) (cfg : ServerConfig) (stats : RuntimeStats)
    → server_load env path ≡ ok cfg
    → (entries : List Entry) × Decoded env cfg.peers entries
      × Tabled
          (start {n = n} entries cfg.handshake_rate_limit cfg.handshake_rate_window_secs
            stats).state.peers
          entries
unfolding start
start-Tabled n env path cfg stats h =
    let valid = server_load-IsValid env path cfg h in
    (valid.2, valid.3.decoded, peer_table-Tabled _ _ _ [] [] valid.2 [] valid.3.all_new)
