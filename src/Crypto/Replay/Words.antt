-- ===== src/Crypto/Replay/Words.antt =====
-- The bitmap of the replay window digit by digit: what moving whole words and then single digits
-- does to digit `k` of the bitmap.
use native.Mathlib.Nat.{div-le_self}
use soulvpn.Base.{
  ℕ, zero, suc, ◌+◌, ◌-◌, ◌*◌, ◌/◌, ◌%◌, ◌^◌, ◌≤◌, ◌<◌, max, ◌≡◌, refl, sym, ◌∙◌, ap, List, [], ◌∷◌,
  bit_or, arith, ltb, leb, if◌then◌else◌, length, get_or, set, length-set, get_or-set_self,
  get_or-set_ne, inl, inr, Bool-cases, lt→ltb, leb→le, ltb→lt, ltb-eq-false, le_of_ltb,
}
use soulvpn.Crypto.Bits.{bit, bit-bit_or, bit-shl, bit-shr, bit-mod, bit-eq-zero, bit_or-lt}
use soulvpn.Crypto.Replay.{move_words, move_bits}

max_zero_left : (n : ℕ) → max 0 n ≡ n
max_zero_left n = omega arith

max_zero_right : (n : ℕ) → max n 0 ≡ n
max_zero_right n = omega arith

-- Digit `k` of the whole bitmap.
abbrev pub view : List ℕ → ℕ → ℕ
view bits k = bit (get_or bits (k / 64) 0) (k % 64)

abbrev pub AreWords : List ℕ → Type 0
AreWords bits = (i : ℕ) → get_or bits i 0 < 2 ^ 64

pub length-move_words : (ws n : ℕ) (bits : List ℕ) → length (move_words ws n bits) ≡ length bits
unfolding move_words
length-move_words ws zero bits = refl
length-move_words ws (suc n) bits = length-move_words ws n _ ∙ length-set bits n _

-- The words above those that the loop has still to write are left alone; in the others the word
-- `ws` places below is found, which the loop has not overwritten yet.
pub get_or-move_words :
    (ws n : ℕ) (bits : List ℕ) (i : ℕ)
    → n ≤ length bits
    → get_or (move_words ws n bits) i 0
      ≡ (if ltb i n then (if leb ws i then get_or bits (i - ws) 0 else 0) else get_or bits i 0)
unfolding move_words
get_or-move_words ws zero bits i h = ground arith
get_or-move_words ws (suc n) bits i h =
    let v : ℕ = if leb ws n then get_or bits (n - ws) 0 else 0 in
    ground (
      arith,
      get_or-move_words ws n (set bits n v) i (omega (arith, length-set bits n v)),
      get_or-set_self bits n v 0,
      get_or-set_ne bits n i v 0,
      get_or-set_ne bits n (i - ws) v 0,
    )

pub length-move_bits : (b c : ℕ) (ws : List ℕ) → length (move_bits b c ws) ≡ length ws
unfolding move_bits
length-move_bits b c [] = refl
length-move_bits b c (w ∷ ws) = ap suc (length-move_bits b (w / 2 ^ (64 - b)) ws)

-- The carry into word `i`.
abbrev carry_into : ℕ → ℕ → List ℕ → ℕ → ℕ
carry_into b c ws zero = c
carry_into b c ws (suc i) = get_or ws i 0 / 2 ^ (64 - b)

get_or-move_bits :
    (b c : ℕ) (ws : List ℕ) (i : ℕ)
    → i < length ws
    → get_or (move_bits b c ws) i 0 ≡ bit_or (get_or ws i 0 * 2 ^ b % 2 ^ 64) (carry_into b c ws i)
unfolding move_bits
get_or-move_bits b c [] i h = elim h [ ]
get_or-move_bits b c (w ∷ ws) zero h = refl
get_or-move_bits b c (w ∷ ws) (suc zero) h =
    get_or-move_bits b (w / 2 ^ (64 - b)) ws zero (omega arith)
get_or-move_bits b c (w ∷ ws) (suc (suc i)) h =
    get_or-move_bits b (w / 2 ^ (64 - b)) ws (suc i) (omega arith)

pub view_at : (ws : List ℕ) (i d : ℕ) → d < 64 → view ws (64 * i + d) ≡ bit (get_or ws i 0) d
view_at ws i d h =
    let word : (64 * i + d) / 64 ≡ i = omega arith in
    let digit : (64 * i + d) % 64 ≡ d = omega arith in rw (word, digit) refl

-- The digits that come in from the word before: its `b` highest.
bit-carry_into :
    (b : ℕ) (ws : List ℕ) (i j : ℕ)
    → b < 64
    → AreWords ws
    → j < 64
    → bit (carry_into b 0 ws i) j
      ≡ (if ltb j b then (if ltb (64 * i + j) b then 0 else view ws (64 * i + j - b)) else 0)
bit-carry_into b ws zero j hb words hj = ground (arith, bit-eq-zero 0 0 j)
bit-carry_into b ws (suc i) j hb words hj =
    rw (bit-shr (get_or ws i 0) (64 - b) j) (elim (Bool-cases (ltb j b)) [
      | inl low ↦
          let below : j < b = ltb→lt j b low in
          let place : 64 * suc i + j - b ≡ 64 * i + (64 - b + j) = omega arith in
          rw (low, ltb-eq-false (64 * suc i + j) b (omega arith), place)
            (sym (view_at ws i (64 - b + j) (omega arith)))
      | inr high ↦ rw high (
          bit-eq-zero (get_or ws i 0) 64 (64 - b + j) (words i) (omega (arith, le_of_ltb j b high)))
    ])

-- Digit `j` of word `i` after the loop: from `b` places below, or from the top of the word before.
bit-move_bits :
    (b : ℕ) (ws : List ℕ) (i j : ℕ)
    → b < 64
    → AreWords ws
    → j < 64
    → i < length ws
    → bit (get_or (move_bits b 0 ws) i 0) j
      ≡ (if ltb (64 * i + j) b then 0 else view ws (64 * i + j - b))
bit-move_bits b ws i j hb words hj hi =
    rw
      (
        get_or-move_bits b 0 ws i hi,
        bit-bit_or (get_or ws i 0 * 2 ^ b % 2 ^ 64) (carry_into b 0 ws i) j,
        bit-mod (get_or ws i 0 * 2 ^ b) 64 j hj,
        bit-shl (get_or ws i 0) b j,
        bit-carry_into b ws i j hb words hj,
      )
      (elim (Bool-cases (ltb j b)) [
        | inl low ↦ rw low (max_zero_left _)
        | inr high ↦
            let above : b ≤ j = le_of_ltb j b high in
            let place : 64 * i + j - b ≡ 64 * i + (j - b) = omega arith in
            rw (high, ltb-eq-false (64 * i + j) b (omega arith), place)
              (max_zero_right _ ∙ sym (view_at ws i (j - b) (omega arith)))
      ])

-- Moving by less than a word: digit `k` comes from `b` places below.
pub view-move_bits :
    (b : ℕ) (ws : List ℕ) (k : ℕ)
    → b < 64
    → AreWords ws
    → k < 64 * length ws
    → view (move_bits b 0 ws) k ≡ (if ltb k b then 0 else view ws (k - b))
view-move_bits b ws k hb words hk =
    let split : 64 * (k / 64) + k % 64 ≡ k = omega arith in
    bit-move_bits b ws (k / 64) (k % 64) hb words (omega arith) (omega arith) ∙ rw split refl

-- Moving by whole words: digit `k` comes from `64 * ws` places below.
pub view-move_words :
    (ws : ℕ) (bits : List ℕ) (k : ℕ)
    → k < 64 * length bits
    → view (move_words ws (length bits) bits) k
      ≡ (if ltb k (64 * ws) then 0 else view bits (k - 64 * ws))
view-move_words ws bits k h =
    rw
      (
        get_or-move_words ws (length bits) bits (k / 64) (omega arith),
        lt→ltb (k / 64) (length bits) (omega arith),
      )
      (elim (Bool-cases (leb ws (k / 64))) [
        | inl at ↦
            let reached : ws ≤ k / 64 = leb→le ws (k / 64) at in
            let place : k - 64 * ws ≡ 64 * (k / 64 - ws) + k % 64 = omega arith in
            rw (at, ltb-eq-false k (64 * ws) (omega arith), place)
              (sym (view_at bits (k / 64 - ws) (k % 64) (omega arith)))
        | inr before ↦
            let under : k / 64 < ws = ground arith in
            rw (before, lt→ltb k (64 * ws) (omega arith))
              (bit-eq-zero 0 0 (k % 64) (omega arith) (omega arith))
      ])

-- Every word stays below 2 ^ 64.
pub move_words-AreWords :
    (ws n : ℕ) (bits : List ℕ) → n ≤ length bits → AreWords bits → AreWords (move_words ws n bits)
move_words-AreWords ws n bits h words i =
    rw (get_or-move_words ws n bits i h) (ground (arith, words i, words (i - ws)))

pub move_bits-AreWords :
    (b c : ℕ) (ws : List ℕ) → c < 2 ^ 64 → AreWords ws → AreWords (move_bits b c ws)
unfolding move_bits
move_bits-AreWords b c [] fits words i = words i
move_bits-AreWords b c (w ∷ ws) fits words zero =
    bit_or-lt (w * 2 ^ b % 2 ^ 64) c 64 (omega arith) fits
move_bits-AreWords b c (w ∷ ws) fits words (suc i) =
    move_bits-AreWords b (w / 2 ^ (64 - b)) ws
      (omega (arith, div-le_self w (2 ^ (64 - b)), words 0)) (λ k. words (suc k)) i
