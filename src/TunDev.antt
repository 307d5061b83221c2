-- ===== src/TunDev.antt =====
-- src/tun_dev.rs, `prefix_to_netmask` (lines 24-30), and `ipv4_network` of src/server.rs (lines 439-445),
-- whose address is given to NAT. Creating the device is a call of the `tun` crate.
pub mod Laws
use soulvpn.Base.{ℕ, ◌-◌, ◌*◌, ◌%◌, ◌^◌, ◌==◌, if◌then◌else◌, bit_and}

unfoldable pub prefix_to_netmask : ℕ → ℕ
prefix_to_netmask prefix = if prefix == 0 then 0 else (2 ^ 32 - 1) * 2 ^ (32 - prefix) % 2 ^ 32

unfoldable pub ipv4_network : ℕ → ℕ → ℕ
ipv4_network addr prefix =
    if prefix == 0
    then 0
    else let mask = (2 ^ 32 - 1) * 2 ^ (32 - prefix) % 2 ^ 32 in bit_and addr mask
