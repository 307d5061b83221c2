-- ===== src/TunDev/Laws.antt =====
-- The three places that compute with a prefix length agree.
use native.Mathlib.Nat.{div-add-mod', one-le-pow, mul-div_cancel}
use soulvpn.Base.{
  ℕ, zero, suc, ◌-◌, ◌*◌, ◌%◌, ◌/◌, ◌^◌, ◌<◌, ◌≤◌, ◌≡◌, refl, sym, ◌∙◌, true, false, ◌==◌, bit_and,
  arith,
}
use soulvpn.Crypto.Bits.{bit_and-zero}
use soulvpn.Config.{network_addr, ip_in_network}
use soulvpn.Config.Network.{ip_in_network_lem}
use soulvpn.TunDev.{prefix_to_netmask, ipv4_network}

not_zero : (p : ℕ) → (suc p == 0) ≡ false
not_zero p = ground arith

==_refl : (n : ℕ) → (n == n) ≡ true
==_refl n = ground arith

-- The network that NAT is set up for is the one that the configuration is checked against, and it is what
-- the device's netmask leaves of an address; an address is in the network that it gives. This holds for
-- every prefix length up to 32, among them 0.
pub ipv4_network_lem :
    (addr prefix : ℕ)
    → addr < 2 ^ 32
    → prefix ≤ 32
    → (ipv4_network addr prefix ≡ network_addr addr prefix)
      × (bit_and addr (prefix_to_netmask prefix) ≡ ipv4_network addr prefix)
      × (ip_in_network addr (ipv4_network addr prefix) prefix ≡ true)
unfolding ipv4_network prefix_to_netmask network_addr ip_in_network
ipv4_network_lem addr zero small h = (refl, bit_and-zero addr addr (omega arith), refl)
ipv4_network_lem addr (suc q) small h =
    let size : ℕ = 2 ^ (32 - suc q) in
    let block : 0 < size = one-le-pow (32 - suc q) 2 (omega arith) in
    let cleared : network_addr addr (suc q) ≡ addr / size * size =
      (ip_in_network_lem addr addr (suc q) small small h).0 in
    let below : addr / size * size < 2 ^ 32 = omega (arith, div-add-mod' addr size) in
    let found = (ip_in_network_lem addr (addr / size * size) (suc q) small below h).1 in
    let same : addr / size * size / size ≡ addr / size = mul-div_cancel (addr / size) block in
    let unmasked : network_addr addr (suc q)
        ≡ bit_and addr ((2 ^ 32 - 1) * 2 ^ (32 - suc q) % 2 ^ 32) =
      rw (not_zero q) refl in
    let net : ipv4_network addr (suc q) ≡ addr / size * size =
      rw (not_zero q) (sym unmasked ∙ cleared) in
    (rw (not_zero q) refl, rw (not_zero q) refl, rw net (found ∙ rw same (==_refl (addr / size))))

-- The network of an address is an address.
pub ipv4_network_lt :
    (addr prefix : ℕ) → addr < 2 ^ 32 → prefix ≤ 32 → ipv4_network addr prefix < 2 ^ 32
ipv4_network_lt addr prefix small h =
    let size : ℕ = 2 ^ (32 - prefix) in
    omega (
      arith,
      (ipv4_network_lem addr prefix small h).0,
      (ip_in_network_lem addr addr prefix small small h).0,
      div-add-mod' addr size,
      small,
    )
