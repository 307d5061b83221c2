-- ===== src/Stats/Format.antt =====
-- The texts of src/stats.rs, `format_bytes` and `format_duration` (lines 248-276). A double that comes from
-- a u64 by divisions by 1024 is a natural number of at most 53 digits over a power of 1024: the
-- divisions are exact, and only the conversion and the printing round, to the nearest, ties to even.
pub mod Laws
pub mod Bytes
use soulvpn.Base.{
  ℕ, zero, suc, ◌+◌, ◌*◌, ◌/◌, ◌%◌, ◌^◌, Bool, List, [], ◌∷◌, ◌++◌, ltb, ◌==◌, if◌then◌else◌,
  String, codes,
}
use soulvpn.Config.Chars.{Text}
use soulvpn.Config.Show.{digits, show_u64}
use soulvpn.Stats.{as_secs}

-- The nearest natural number to `n / d`, and the even one of two.
unfoldable pub round_div : ℕ → ℕ → ℕ
round_div n d =
    let k = n / d in
    let twice = 2 * (n % d) in if ltb twice d then k else if ltb d twice then k + 1 else k + k % 2

-- `n as f64`: the last argument of the loop is how many more digits may be cut off.
abbrev pub round_digits : ℕ → ℕ → ℕ → ℕ
round_digits n cut zero = round_div n (2 ^ cut) * 2 ^ cut
round_digits n cut (suc more) =
    let rest = round_digits n (cut + 1) more in
    if ltb n (2 ^ (53 + cut)) then round_div n (2 ^ cut) * 2 ^ cut else rest

unfoldable pub as_f64 : ℕ → ℕ
as_f64 n = round_digits n 0 11

-- Two digits, for `{:02}` of a number below 100 and for the decimals of `{:.2}`.
abbrev pub two_digits : ℕ → Text
two_digits n = (48 + n / 10 % 10) ∷ (48 + n % 10) ∷ []

abbrev pub units : ℕ → String
units zero = "B"
units (suc zero) = "KiB"
units (suc (suc zero)) = "MiB"
units (suc (suc (suc zero))) = "GiB"
units (suc (suc (suc (suc n)))) = "TiB"

-- The loop from the unit `i` on, with the units left: `v` is `f / 1024 ^ i`.
unfoldable pub unit_of : ℕ → ℕ → ℕ → ℕ
unit_of f i zero = i
unit_of f i (suc left) =
    let next = unit_of f (i + 1) left in if ltb f (1024 ^ (i + 1)) then i else next

-- `{v:.2}`, from the hundredths.
abbrev pub show_fixed2 : ℕ → Text
show_fixed2 hundredths = show_u64 (hundredths / 100) ++ (46 ∷ two_digits (hundredths % 100))

unfoldable pub format_bytes : ℕ → Text
format_bytes n =
    let f = as_f64 n in
    let i = unit_of f 0 4 in
    if i == 0
    then show_u64 n ++ codes " B"
    else show_fixed2 (round_div (f * 100) (1024 ^ i)) ++ (32 ∷ codes (units i))

unfoldable pub format_duration : ℕ → Text
format_duration d =
    let s = as_secs d in
    let h = s / 3600 in
    let m = s % 3600 / 60 in
    let sec = s % 60 in
    if ltb 0 h
    then show_u64 h ++ (104 ∷ (two_digits m ++ (109 ∷ (two_digits sec ++ (115 ∷ [])))))
    else if ltb 0 m
    then show_u64 m ++ (109 ∷ (two_digits sec ++ (115 ∷ [])))
    else show_u64 sec ++ (115 ∷ [])
