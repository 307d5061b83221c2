-- ===== src/Packet.antt =====
-- src/packet.rs: the IPv4 header helpers. A packet is the list of its bytes; an address is the
-- number that `u32::from` gives.
pub mod Laws
use soulvpn.Base.{
  ℕ, ◌+◌, ◌*◌, ◌/◌, ◌^◌, Bool, ◌&&◌, not, Option, none, some, List, length, get_or, leb, ◌==◌,
  if◌then◌else◌,
}

-- `Ipv4Addr::new`, of four bytes.
abbrev pub ipv4_new : ℕ → ℕ → ℕ → ℕ → ℕ
ipv4_new a b c d = ((a * 256 + b) * 256 + c) * 256 + d

unfoldable pub is_ipv4 : List ℕ → Bool
is_ipv4 packet = leb 20 (length packet) && (get_or packet 0 0 / 2 ^ 4 == 4)

unfoldable pub ipv4_src : List ℕ → Option ℕ
unfolding is_ipv4
ipv4_src packet =
    if not (is_ipv4 packet)
    then none
    else some (
        ipv4_new (get_or packet 12 0) (get_or packet 13 0) (get_or packet 14 0)
          (get_or packet 15 0))

unfoldable pub ipv4_dst : List ℕ → Option ℕ
unfolding is_ipv4
ipv4_dst packet =
    if not (is_ipv4 packet)
    then none
    else some (
        ipv4_new (get_or packet 16 0) (get_or packet 17 0) (get_or packet 18 0)
          (get_or packet 19 0))
