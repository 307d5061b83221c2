-- ===== src/Config/Laws.antt =====
-- What a configuration of the server that is loaded satisfies, src/config.rs.
use soulvpn.Base.{
  ℕ, ◌<◌, ◌≤◌, ◌≡◌, ◌≢◌, subst, Bool, true, false, not, ◌||◌, List, [], ◌∷◌, length, anyb, ltb,
  ◌==◌, list_beq, ok, with_context, bind-ok, then-ok, bail_if-ok, with_context-ok, arith,
}
use soulvpn.Config.Chars.{Text}
use soulvpn.Config.{
  Env, parse_mode, parse_ipv4, parse_cidr, network_addr, ip_in_network, decode_key,
  load_key_material, check_peers, check_server, server_load,
}
use soulvpn.Config.Toml.{filled_server, PeerConfig, ServerConfig}

-- The key and the tunnel address of a peer.
abbrev pub Entry : Type 0
Entry = List ℕ × ℕ

module _ (env : Env) where
  -- The entries are what the texts of the peers say.
  abbrev pub Decoded : List PeerConfig → List Entry → Type 0
  Decoded [] [] = Unit {0}
  Decoded [] (entry ∷ entries) = ⊥
  Decoded (p ∷ ps) [] = ⊥
  Decoded (p ∷ ps) (entry ∷ entries) =
      ((parse_ipv4 p.allowed_ip ≡ ok entry.1) × (decode_key env p.public_key ≡ ok entry.0))
      × Decoded ps entries

-- A host address of the network other than the server's.
pub record IsHost (server_ip network prefix tip : ℕ) : Type 0 where
  pub inside : ip_in_network tip network prefix ≡ true
  pub not_server : tip ≢ server_ip
  pub not_network : tip ≢ network

-- Each entry is a host, and shares neither key nor address with one seen before.
abbrev pub AllNew : ℕ → ℕ → ℕ → List ℕ → List (List ℕ) → List Entry → Type 0
AllNew server_ip network prefix ips keys [] = Unit {0}
AllNew server_ip network prefix ips keys ((key, tip) ∷ entries) =
    (IsHost server_ip network prefix tip
      × (anyb (λ ip. ip == tip) ips ≡ false)
      × (anyb (λ other. list_beq other key) keys ≡ false))
    × AllNew server_ip network prefix (tip ∷ ips) (key ∷ keys) entries

not-false : {b : Bool} → not b ≡ false → b ≡ true
not-false {b} h = ground arith

ne_of_test : {a b : ℕ} → (a == b) ≡ false → a ≢ b
ne_of_test h = λ e. ground arith

check_peers-AllNew :
    (env : Env) (server_ip network prefix : ℕ) (ips : List ℕ) (keys : List (List ℕ))
    (ps : List PeerConfig)
    → check_peers env server_ip network prefix ips keys ps ≡ ok tt
    → (entries : List Entry) × Decoded env ps entries
      × AllNew server_ip network prefix ips keys entries
unfolding check_peers
check_peers-AllNew env server_ip network prefix ips keys [] h = ([], tt, tt)
check_peers-AllNew env server_ip network prefix ips keys (p ∷ ps) h =
    let tip = bind-ok (parse_ipv4 p.allowed_ip) _ tt h in
    let pk = bind-ok (decode_key env p.public_key) _ tt tip.2 in
    let ip_new = bail_if-ok _ _ _ tt pk.2 in
    let key_new = bail_if-ok _ _ _ tt ip_new.1 in
    let inside = bail_if-ok _ _ _ tt key_new.1 in
    let not_server = bail_if-ok _ _ _ tt inside.1 in
    let not_network = bail_if-ok _ _ _ tt not_server.1 in
    let rest =
      check_peers-AllNew env server_ip network prefix (tip.0 ∷ ips) (pk.0 ∷ keys) ps
        not_network.1 in
    (
      (pk.0, tip.0) ∷ rest.0,
      ((tip.1, pk.1), rest.1),
      (
        (
          record {
            inside = not-false inside.0;
            not_server = ne_of_test not_server.0;
            not_network = ne_of_test not_network.0;
          },
          ip_new.0,
          key_new.0,
        ),
        rest.2,
      ),
    )

-- What a configuration of the server promises.
pub record IsValid (env : Env) (cfg : ServerConfig) (server_ip prefix : ℕ) (entries : List Entry)
    : Type 0 where
  pub address : parse_cidr cfg.address ≡ ok (server_ip, prefix)
  pub decoded : Decoded env cfg.peers entries
  pub all_new : AllNew server_ip (network_addr server_ip prefix) prefix [] [] entries
  pub some_peer : 0 < length cfg.peers
  pub mtu_ge : 576 ≤ cfg.mtu
  pub mtu_le : cfg.mtu ≤ 9000
  pub mode : (bits : ℕ) × (parse_mode cfg.control_mode ≡ ok bits)
  pub key :
      (private : List ℕ) × (load_key_material env cfg.private_key cfg.private_key_file ≡ ok private)

or-false : {a b : Bool} → (a || b) ≡ false → (a ≡ false) × (b ≡ false)
or-false {a} {b} h = (ground arith, ground arith)

check_server-IsValid :
    (env : Env) (cfg read : ServerConfig)
    → check_server env read ≡ ok cfg
    → (server_ip : ℕ) × (prefix : ℕ) × (entries : List Entry) × IsValid env read server_ip prefix
        entries
      × (read ≡ cfg)
unfolding check_server
check_server-IsValid env cfg read h =
    let peers = bail_if-ok (length read.peers == 0) _ _ cfg h in
    let mode = bind-ok (with_context "control_mode" (parse_mode read.control_mode)) _ cfg peers.1 in
    let mtu = bail_if-ok (ltb read.mtu 576 || ltb 9000 read.mtu) _ _ cfg mode.2 in
    let range = or-false {a = ltb read.mtu 576} {b = ltb 9000 read.mtu} mtu.0 in
    let net = bind-ok (parse_cidr read.address) _ cfg mtu.1 in
    let checked =
      then-ok (check_peers env net.0.0 (network_addr net.0.0 net.0.1) net.0.1 [] [] read.peers) _
        cfg net.2 in
    let key =
      bind-ok (load_key_material env read.private_key read.private_key_file) _ cfg checked.1 in
    let entries =
      check_peers-AllNew env net.0.0 (network_addr net.0.0 net.0.1) net.0.1 [] [] read.peers
        checked.0 in
    (
      net.0.0,
      net.0.1,
      entries.0,
      record {
        address = net.1;
        decoded = entries.1;
        all_new = entries.2;
        some_peer = ground (arith, peers.0);
        mtu_ge = ground (arith, range.0);
        mtu_le = ground (arith, range.1);
        mode =
            (mode.0, with_context-ok "control_mode" (parse_mode read.control_mode) mode.0 mode.1);
        key = (key.0, key.1);
      },
      ground (arith, key.2),
    )

-- A configuration that the server loads has at least one peer, an MTU between 576 and 9000, a mode for
-- the control socket, a private key, and for each peer a key and an address that no peer before it has;
-- each address lies in the network of the server's, and is neither that of the server nor of the network.
pub server_load-IsValid :
    (env : Env) (path : Text) (cfg : ServerConfig)
    → server_load env path ≡ ok cfg
    → (server_ip : ℕ) × (prefix : ℕ) × (entries : List Entry) × IsValid env cfg server_ip prefix
        entries
unfolding server_load
server_load-IsValid env path cfg h =
    let text = bind-ok (with_context "read server config" (env.read_to_string path)) _ cfg h in
    let read = bind-ok (with_context "parse server config" (env.server_toml text.0)) _ cfg text.2 in
    let valid = check_server-IsValid env cfg (filled_server read.0) read.2 in
    (valid.0, valid.1, valid.2, subst (λ c. IsValid env c valid.0 valid.1 valid.2) valid.4 valid.3)
