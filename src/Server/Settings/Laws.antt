-- ===== src/Server/Settings/Laws.antt =====
-- A configuration that was loaded gives `run` of src/server.rs what it reads.
use soulvpn.Base.{ℕ, ◌≡◌, refl, some, List, [], ◌∷◌, ok, lookup, bytes_eq}
use soulvpn.Config.Chars.{Text}
use soulvpn.Config.{Env, parse_cidr, network_addr, server_private_key, server_load}
use soulvpn.Config.Toml.{PeerConfig, ServerConfig}
use soulvpn.Config.Laws.{Entry, Decoded, AllNew, server_load-IsValid}
use soulvpn.Crypto.Noise.{Noise}
use soulvpn.Stats.{RuntimeStats}
use soulvpn.Server.Run.{start}
use soulvpn.Server.State.{PeerMeta}
use soulvpn.Server.Run.Peers.{Tabled, peer_table-Tabled, Listed, peer_table-Listed}
use soulvpn.Server.Settings.{Settings, decode_peers, settings}

decode_peers-Decoded :
    (env : Env) (peers : List PeerConfig) (entries : List Entry)
    → Decoded env peers entries
    → decode_peers env peers ≡ ok entries
unfolding decode_peers
decode_peers-Decoded env [] [] decoded = refl
decode_peers-Decoded env [] (entry ∷ entries) decoded = elim decoded [ ]
decode_peers-Decoded env (p ∷ ps) [] decoded = elim decoded [ ]
decode_peers-Decoded env (p ∷ ps) (entry ∷ entries) ((tip, key), rest) =
    simp (key, tip, decode_peers-Decoded env ps entries rest) refl

-- `run` never stops at a configuration that `load` has accepted: the private key, the address, the mode
-- and every peer are read again. The table of peers that it starts with has under the key of each peer
-- its own tunnel address, and nothing but these entries; and the peers are hosts of the tunnel's network
-- that differ from each other in key and address.
pub settings-server_load :
    (n : Noise) (env : Env) (path : Text) (cfg : ServerConfig) (stats : RuntimeStats)
    → server_load env path ≡ ok cfg
    → (set : Settings) × (settings env cfg ≡ ok set)
      × (server_private_key env cfg ≡ ok set.private)
      × (parse_cidr cfg.address ≡ ok (set.addr, set.prefix))
      × Decoded env cfg.peers set.peers
      × AllNew set.addr (network_addr set.addr set.prefix) set.prefix [] [] set.peers
      × Tabled
          (start {n = n} set.peers cfg.handshake_rate_limit cfg.handshake_rate_window_secs
            stats).state.peers
          set.peers
      × ((key : List ℕ) (peer : PeerMeta)
          → lookup key
              (start {n = n} set.peers cfg.handshake_rate_limit cfg.handshake_rate_window_secs
                stats).state.peers
            ≡ some peer
          → Listed key peer.tunnel_ip set.peers)
unfolding settings start server_private_key
settings-server_load n env path cfg stats h =
    let (addr, prefix, entries, valid) = server_load-IsValid env path cfg h in
    let set : Settings = record {
      private = valid.key.0;
      addr = addr;
      prefix = prefix;
      control_mode = valid.mode.0;
      peers = entries;
    } in
    (
      set,
      simp
          (
            valid.key.1,
            valid.address,
            valid.mode.1,
            decode_peers-Decoded env cfg.peers entries valid.decoded,
          )
          refl,
      valid.key.1,
      valid.address,
      valid.decoded,
      valid.all_new,
      peer_table-Tabled addr (network_addr addr prefix) prefix [] [] entries [] valid.all_new,
      λ key peer found. peer_table-Listed entries key peer found,
    )
