-- ===== src/Stats/Format/Bytes.antt =====
-- How near `format_bytes` of src/stats.rs is to the number.
use native.Mathlib.Nat.{div-add-mod', mod-lt, one-le-pow}
use soulvpn.Base.{
  ℕ, zero, suc, ◌+◌, ◌*◌, ◌/◌, ◌%◌, ◌^◌, ◌≤◌, ◌<◌, ◌≡◌, refl, true, Bool-cases, inl, inr, ◌⊎◌, ◌++◌,
  ◌∷◌, ltb, ◌==◌, if◌then◌else◌, codes, arith,
}
use soulvpn.Config.Show.{show_u64}
use soulvpn.Stats.Format.{round_div, as_f64, unit_of, show_fixed2, units, format_bytes}

-- The double of `k` over `d` is at most one half away from `n / d`.
abbrev pub IsNear : ℕ → ℕ → ℕ → Type 0
IsNear k n d = (2 * (k * d) ≤ 2 * n + d) × (2 * n ≤ 2 * (k * d) + d)

below-IsNear : (k r n d : ℕ) → k * d + r ≡ n → 2 * r ≤ d → IsNear k n d
below-IsNear k r n d whole low = (omega (arith, whole, low), omega (arith, whole, low))

above-IsNear : (k r n d : ℕ) → k * d + r ≡ n → r < d → d ≤ 2 * r → IsNear (k + 1) n d
above-IsNear k r n d whole small high =
    let step : (k + 1) * d ≡ k * d + d = omega arith in
    (omega (arith, whole, small, high, step), omega (arith, whole, small, high, step))

even_or_odd : (k : ℕ) → (k + k % 2 ≡ k) ⊎ (k + k % 2 ≡ k + 1)
even_or_odd k = ground arith

round_div-IsNear : (n d : ℕ) → 0 < d → IsNear (round_div n d) n d
unfolding round_div
round_div-IsNear n d h =
    let k : ℕ = n / d in
    let r : ℕ = n % d in
    let whole : k * d + r ≡ n = div-add-mod' n d in
    let small : r < d = mod-lt n h in
    elim (Bool-cases (ltb (2 * r) d)) [
      | inl low ↦ simp low (below-IsNear k r n d whole (ground (arith, low)))
      | inr not_low ↦ elim (Bool-cases (ltb d (2 * r))) [
        | inl high ↦ simp (not_low, high) (above-IsNear k r n d whole small (ground (arith, high)))
        | inr not_high ↦ elim (even_or_odd k) [
          | inl even ↦
              simp (not_low, not_high, even) (below-IsNear k r n d whole (ground (arith, not_high)))
          | inr odd ↦
              simp (not_low, not_high, odd)
                (above-IsNear k r n d whole small (ground (arith, not_low)))
        ]
      ]
    ]

as_f64_small : (n : ℕ) → n < 2 ^ 53 → as_f64 n ≡ n
unfolding as_f64
as_f64_small n small =
    let fits : ltb n (2 ^ 53) ≡ true = ground (arith, small) in
    let near = round_div-IsNear n 1 (omega arith) in simp fits (omega (arith, near))

-- The unit is right.
abbrev pub IsUnit : ℕ → ℕ → Type 0
IsUnit f j = ((j ≡ 0) ⊎ (1024 ^ j ≤ f)) × ((j ≡ 4) ⊎ (f < 1024 ^ (j + 1))) × (j ≤ 4)

unit_of-IsUnit :
    (f i left : ℕ) → i + left ≡ 4 → (i ≡ 0) ⊎ (1024 ^ i ≤ f) → IsUnit f (unit_of f i left)
unfolding unit_of
unit_of-IsUnit f i zero h low = (low, inl (omega (arith, h)), omega (arith, h))
unit_of-IsUnit f i (suc left) h low = elim (Bool-cases (ltb f (1024 ^ (i + 1)))) [
  | inl below ↦ simp below (low, inr (ground (arith, below)), omega (arith, h))
  | inr above ↦
      simp above (unit_of-IsUnit f (i + 1) left (omega (arith, h)) (inr (ground (arith, above))))
]

-- Below 2^53 the number is a double, and what is printed is: the number itself below 1024, and otherwise
-- its quotient by the largest power of 1024 that is not above it, of TiB at most, to the nearest
-- hundredth.
pub format_bytes-IsNear :
    (n : ℕ)
    → n < 2 ^ 53
    → (j : ℕ) × (k : ℕ) × IsUnit n j
      × IsNear k (n * 100) (1024 ^ j)
      × (format_bytes n
          ≡ (if j == 0 then show_u64 n ++ codes " B" else show_fixed2 k ++ (32 ∷ codes (units j))))
unfolding format_bytes
format_bytes-IsNear n small =
    let same : as_f64 n ≡ n = as_f64_small n small in
    let j : ℕ = unit_of n 0 4 in
    (
      j,
      round_div (n * 100) (1024 ^ j),
      unit_of-IsUnit n 0 4 refl (inl refl),
      round_div-IsNear (n * 100) (1024 ^ j) (one-le-pow j 1024 (omega arith)),
      simp same refl,
    )
