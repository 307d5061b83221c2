-- ===== src/Crypto/Bits.antt =====
-- The binary digits of a word, and what the operators `|`, `&`, `<<` and `>>` do to them.
use Prim.Native.Nat.{digits, bit_and-bitwise, bit_or-bitwise}
use Prim.Native.Nat.add
use native.Mathlib.Nat.{
  pow-suc, one-le-pow, pow-le-pow_right, div-div-eq-div-mul, mul-add-mod_self_left, mod-eq_of_lt,
  mul-one,
}
use soulvpn.Base.{
  ℕ, zero, suc, ◌+◌, ◌-◌, ◌*◌, ◌/◌, ◌%◌, ◌^◌, ◌≤◌, ◌<◌, min, max, bit_and, bit_or, ◌≡◌, refl, ap,
  ◌∙◌, arith, ltb, if◌then◌else◌, ◌==◌,
}

-- Digit `k` of `x`, counted from the lowest.
abbrev pub bit : ℕ → ℕ → ℕ
bit x zero = x % 2
bit x (suc k) = bit (x / 2) k

-- The native operators run a recursion on digits with fuel; any fuel from `a` on gives the same.
spare_fuel :
    (one : ℕ → ℕ) (both : ℕ → ℕ → ℕ) (a b p q : ℕ)
    → a ≤ p
    → a ≤ q
    → digits one both p a b ≡ digits one both q a b
spare_fuel one both zero b zero zero h k = refl
spare_fuel one both zero b zero (suc q) h k = refl
spare_fuel one both zero b (suc p) zero h k = refl
spare_fuel one both zero b (suc p) (suc q) h k = refl
spare_fuel one both (suc a) b zero q h k = elim h [ ]
spare_fuel one both (suc a) b (suc p) zero h k = elim k [ ]
spare_fuel one both (suc a) b (suc p) (suc q) h k =
    ap (λ (t : ℕ). t * 2 + both (suc a % 2) (b % 2))
      (spare_fuel one both (suc a / 2) (b / 2) p q (omega arith) (omega arith))

-- The lowest digit of `a | b`, and the others.
bit_or_digits : (a b : ℕ) → bit_or a b ≡ bit_or (a / 2) (b / 2) * 2 + max (a % 2) (b % 2)
bit_or_digits zero b = omega (arith, bit_or-bitwise 0 b, bit_or-bitwise 0 (b / 2))
bit_or_digits (suc a) b = omega (
  arith,
  bit_or-bitwise (suc a) b,
  bit_or-bitwise (suc a / 2) (b / 2),
  spare_fuel (λ y. y) max (suc a / 2) (b / 2) a (suc a / 2) (omega arith) (omega arith),
)

-- The lowest digit of `a & b`, and the others.
bit_and_digits : (a b : ℕ) → bit_and a b ≡ bit_and (a / 2) (b / 2) * 2 + min (a % 2) (b % 2)
bit_and_digits zero b = omega (arith, bit_and-bitwise 0 b, bit_and-bitwise 0 (b / 2))
bit_and_digits (suc a) b = omega (
  arith,
  bit_and-bitwise (suc a) b,
  bit_and-bitwise (suc a / 2) (b / 2),
  spare_fuel (λ y. 0) min (suc a / 2) (b / 2) a (suc a / 2) (omega arith) (omega arith),
)

pub bit-le : (x k : ℕ) → bit x k ≤ 1
bit-le x zero = omega arith
bit-le x (suc k) = bit-le (x / 2) k

pub bit-bit_or : (a b k : ℕ) → bit (bit_or a b) k ≡ max (bit a k) (bit b k)
bit-bit_or a b zero = omega (arith, bit_or_digits a b)
bit-bit_or a b (suc k) =
    let half : bit_or a b / 2 ≡ bit_or (a / 2) (b / 2) = omega (arith, bit_or_digits a b) in
    rw half (bit-bit_or (a / 2) (b / 2) k)

bit-zero : (k : ℕ) → bit 0 k ≡ 0
bit-zero zero = refl
bit-zero (suc k) = bit-zero k

pow_suc_left : (s : ℕ) → 2 ^ suc s ≡ 2 * 2 ^ s
pow_suc_left s = omega (arith, pow-suc 2 s)

shl_suc : (x s : ℕ) → x * 2 ^ suc s ≡ 2 * (x * 2 ^ s)
shl_suc x s = omega (arith, ap (λ (t : ℕ). x * t) (pow-suc 2 s))

-- `x << s` on unbounded numbers.
pub bit-shl : (x s k : ℕ) → bit (x * 2 ^ s) k ≡ (if ltb k s then 0 else bit x (k - s))
bit-shl x zero k = ground arith
bit-shl x (suc s) zero = ground (arith, shl_suc x s)
bit-shl x (suc s) (suc k) =
    let half : x * 2 ^ suc s / 2 ≡ x * 2 ^ s = omega (arith, shl_suc x s) in
    rw half (ground (arith, bit-shl x s k))

-- `x >> s`.
pub bit-shr : (x s k : ℕ) → bit (x / 2 ^ s) k ≡ bit x (s + k)
bit-shr x zero k = ground arith
bit-shr x (suc s) k =
    rw (pow_suc_left s, ← div-div-eq-div-mul x 2 (2 ^ s), bit-shr (x / 2) s k, add.suc s k) refl

mod_half : (x p : ℕ) → 0 < p → x % (2 * p) / 2 ≡ x / 2 % p
mod_half x p h =
    let r : ℕ = x % (2 * p) / 2 in
    let fits : r < p = omega arith in
    let split : x / 2 ≡ p * (x / (2 * p)) + r = omega arith in
    rw (split, mul-add-mod_self_left p (x / (2 * p)) r, mod-eq_of_lt fits) refl

-- Truncation to `n` digits.
pub bit-mod : (x n k : ℕ) → k < n → bit (x % 2 ^ n) k ≡ bit x k
bit-mod x zero k h = elim h [ ]
bit-mod x (suc n) zero h = rw (pow_suc_left n) (omega arith)
bit-mod x (suc n) (suc k) h =
    rw (pow_suc_left n, mod_half x (2 ^ n) (one-le-pow n 2 (omega arith)))
      (bit-mod (x / 2) n k (omega arith))

-- A number below `2 ^ n` has `n` digits.
pub bit-eq-zero : (x n k : ℕ) → x < 2 ^ n → n ≤ k → bit x k ≡ 0
bit-eq-zero zero n k h le = bit-zero k
bit-eq-zero (suc x) zero k h le = absurd (omega arith)
bit-eq-zero (suc x) (suc n) zero h le = elim le [ ]
bit-eq-zero (suc x) (suc n) (suc k) h le =
    bit-eq-zero (suc x / 2) n k (omega (arith, pow_suc_left n)) (omega arith)

pub bit_or-lt : (a b n : ℕ) → a < 2 ^ n → b < 2 ^ n → bit_or a b < 2 ^ n
bit_or-lt zero zero zero h k = h
bit_or-lt zero (suc b) zero h k = absurd (omega arith)
bit_or-lt (suc a) b zero h k = absurd (omega arith)
bit_or-lt a b (suc n) h k = omega (
  arith,
  pow_suc_left n,
  bit_or_digits a b,
  bit_or-lt (a / 2) (b / 2) n (omega (arith, pow_suc_left n)) (omega (arith, pow_suc_left n)),
)

pub bit_and-zero : (x k : ℕ) → x ≤ k → bit_and x 0 ≡ 0
bit_and-zero zero k h = bit_and-bitwise 0 0
bit_and-zero (suc x) zero h = elim h [ ]
bit_and-zero (suc x) (suc k) h =
    omega (arith, bit_and_digits (suc x) 0, bit_and-zero (suc x / 2) k (omega arith))

-- `x & (1 << k)`.
pub bit_and-two-pow : (x k : ℕ) → bit_and x (2 ^ k) ≡ bit x k * 2 ^ k
bit_and-two-pow x zero =
    omega (arith, bit_and_digits x 1, bit_and-zero (x / 2) (x / 2) (omega arith))
bit_and-two-pow x (suc k) =
    let half : 2 ^ suc k / 2 ≡ 2 ^ k = omega (arith, pow_suc_left k) in
    let ih : bit_and (x / 2) (2 ^ suc k / 2) ≡ bit (x / 2) k * 2 ^ k =
      rw half (bit_and-two-pow (x / 2) k) in
    omega (
      arith,
      pow_suc_left k,
      bit_and_digits x (2 ^ suc k),
      ih,
      ap (λ (t : ℕ). bit (x / 2) k * t) (pow_suc_left k),
    )

-- The only digit of `1 << s`.
pub bit-two-pow : (s k : ℕ) → bit (2 ^ s) k ≡ (if k == s then 1 else 0)
bit-two-pow zero zero = refl
bit-two-pow zero (suc k) = ground (arith, bit-zero k)
bit-two-pow (suc s) zero = ground (arith, pow_suc_left s)
bit-two-pow (suc s) (suc k) =
    let half : 2 ^ suc s / 2 ≡ 2 ^ s = omega (arith, pow_suc_left s) in
    rw half (ground (arith, bit-two-pow s k))

pub two-pow-lt : (s n : ℕ) → s < n → 2 ^ s < 2 ^ n
two-pow-lt s n h = omega (
  arith,
  pow_suc_left s,
  one-le-pow s 2 (omega arith),
  pow-le-pow_right {n = 2} (omega arith) {i = suc s} {j = n} h,
)

-- `x & (2 ^ w - 1)` of a number with `w` digits.
bit_and-ones : (x w : ℕ) → x < 2 ^ w → bit_and x (2 ^ w - 1) ≡ x
bit_and-ones x zero h = omega (arith, bit_and-zero x x (omega arith))
bit_and-ones x (suc w) h =
    let some_digit = one-le-pow w 2 (omega arith) in
    let half : (2 ^ suc w - 1) / 2 ≡ 2 ^ w - 1 = omega (arith, pow_suc_left w, some_digit) in
    let odd : (2 ^ suc w - 1) % 2 ≡ 1 = omega (arith, pow_suc_left w, some_digit) in
    let ih : bit_and (x / 2) ((2 ^ suc w - 1) / 2) ≡ x / 2 =
      rw half (bit_and-ones (x / 2) w (omega (arith, pow_suc_left w))) in
    omega (arith, bit_and_digits x (2 ^ suc w - 1), odd, ih)

-- `x & m` clears the lowest `k` digits, where `m` has `w` ones above them.
pub bit_and-high_ones :
    (x w k : ℕ) → x / 2 ^ k < 2 ^ w → bit_and x ((2 ^ w - 1) * 2 ^ k) ≡ x / 2 ^ k * 2 ^ k
bit_and-high_ones x w zero h =
    rw (mul-one (2 ^ w - 1)) (bit_and-ones x w (omega arith) ∙ omega arith)
bit_and-high_ones x w (suc k) h =
    let m : ℕ = (2 ^ w - 1) * 2 ^ k in
    let half : (2 ^ w - 1) * 2 ^ suc k / 2 ≡ m = omega (arith, shl_suc (2 ^ w - 1) k) in
    let even : (2 ^ w - 1) * 2 ^ suc k % 2 ≡ 0 = omega (arith, shl_suc (2 ^ w - 1) k) in
    let shifted : x / 2 ^ suc k ≡ x / 2 / 2 ^ k =
      rw (pow_suc_left k, ← div-div-eq-div-mul x 2 (2 ^ k)) refl in
    let ih : bit_and (x / 2) ((2 ^ w - 1) * 2 ^ suc k / 2) ≡ x / 2 / 2 ^ k * 2 ^ k =
      rw half (bit_and-high_ones (x / 2) w k (omega (arith, shifted))) in
    rw shifted (
      omega
        (arith, bit_and_digits x ((2 ^ w - 1) * 2 ^ suc k), even, ih, shl_suc (x / 2 / 2 ^ k) k))
