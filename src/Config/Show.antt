-- ===== src/Config/Show.antt =====
-- How `format!` prints numbers and IPv4 addresses, as src/server.rs, src/stats.rs and src/main.rs use it.
pub mod Laws
use soulvpn.Base.{ℕ, zero, suc, ◌+◌, ◌/◌, ◌%◌, ◌^◌, List, [], ◌∷◌, ◌++◌, ltb, if◌then◌else◌}
use soulvpn.Config.Chars.{Text}

-- The decimal digits of a number, of at most as many digits as the first argument says.
unfoldable pub digits : ℕ → ℕ → Text
digits zero n = []
digits (suc room) n =
    let front = digits room (n / 10) in (if ltb n 10 then [] else front) ++ (48 + n % 10) ∷ []

-- Twenty digits are enough for a u64.
abbrev pub show_u64 : ℕ → Text
show_u64 n = digits 20 n

-- Two texts with a character between them.
abbrev pub joined : ℕ → Text → Text → Text
joined sep s t = s ++ (sep ∷ t)

-- `Ipv4Addr`
unfoldable pub show_addr : ℕ → Text
show_addr ip = joined 46 (digits 3 (ip / 256 ^ 3)) (
    joined 46 (digits 3 (ip / 256 ^ 2 % 256))
      (joined 46 (digits 3 (ip / 256 % 256)) (digits 3 (ip % 256))))

-- `format!("{network}/{prefix}")`
unfoldable pub show_cidr : ℕ → ℕ → Text
show_cidr network prefix = joined 47 (show_addr network) (digits 3 prefix)
