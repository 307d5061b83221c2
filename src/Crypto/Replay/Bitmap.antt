-- ===== src/Crypto/Replay/Bitmap.antt =====
-- `shift_left`, `test_bit` and `set_bit` of src/crypto.rs as operations on the digits of the bitmap.
use native.Mathlib.Nat.{one-le-pow}
use soulvpn.Base.{
  ℕ, ◌-◌, ◌*◌, ◌/◌, ◌%◌, ◌^◌, ◌<◌, ◌≡◌, refl, sym, ◌∙◌, ap, List, bit_or, arith, ltb, ◌==◌,
  if◌then◌else◌, not, length, get_or, length-set, get_or-set_self, get_or-set_ne, get_or-replicate,
}
use soulvpn.Crypto.Bits.{
  bit-bit_or, bit-two-pow, bit_and-two-pow, bit-le, bit_or-lt, bit-eq-zero, two-pow-lt,
}
use soulvpn.Crypto.Replay.{
  move_words, move_bits, shift_words, shift_bits, shift_left, test_bit, set_bit, no_bits,
}
use soulvpn.Crypto.Replay.Words.{
  view, AreWords, length-move_words, length-move_bits, view-move_words, view-move_bits,
  move_words-AreWords, move_bits-AreWords,
}

pub record IsBitmap (bits : List ℕ) : Type 0 where
  pub size : length bits ≡ 16
  pub words : AreWords bits

pub no_bits-IsBitmap : IsBitmap no_bits
no_bits-IsBitmap = record {
  size = refl;
  words = λ i. rw (get_or-replicate {A = ℕ} 16 i 0) (omega arith);
}

pub view-no_bits : (k : ℕ) → view no_bits k ≡ 0
view-no_bits k =
    rw (get_or-replicate {A = ℕ} 16 (k / 64) 0)
      (bit-eq-zero 0 0 (k % 64) (omega arith) (omega arith))

shift_words-IsBitmap : (ws : ℕ) {bits : List ℕ} → IsBitmap bits → IsBitmap (shift_words ws bits)
unfolding shift_words
shift_words-IsBitmap ws {bits} b = ground (arith, moved)
  where
    moved : IsBitmap (move_words ws 16 bits)
    moved = record {
      size = length-move_words ws 16 bits ∙ b.size;
      words = move_words-AreWords ws 16 bits (omega arith) b.words;
    }

shift_bits-IsBitmap : (s : ℕ) {bits : List ℕ} → IsBitmap bits → IsBitmap (shift_bits s bits)
unfolding shift_bits
shift_bits-IsBitmap s {bits} b = ground (arith, moved)
  where
    moved : IsBitmap (move_bits s 0 bits)
    moved = record {
      size = length-move_bits s 0 bits ∙ b.size;
      words = move_bits-AreWords s 0 bits (omega arith) b.words;
    }

view-shift_words :
    (ws : ℕ) {bits : List ℕ} (k : ℕ)
    → IsBitmap bits
    → k < 1024
    → view (shift_words ws bits) k ≡ (if ltb k (64 * ws) then 0 else view bits (k - 64 * ws))
unfolding shift_words
view-shift_words ws {bits} k b h = ground (arith, moved)
  where
    moved :
        view (move_words ws 16 bits) k ≡ (if ltb k (64 * ws) then 0 else view bits (k - 64 * ws))
    moved =
        ap (λ (n : ℕ). view (move_words ws n bits) k) (sym b.size)
        ∙ view-move_words ws bits k (omega (arith, b.size))

view-shift_bits :
    (s : ℕ) {bits : List ℕ} (k : ℕ)
    → IsBitmap bits
    → s < 64
    → k < 1024
    → view (shift_bits s bits) k ≡ (if ltb k s then 0 else view bits (k - s))
unfolding shift_bits
view-shift_bits s {bits} k b hs h =
    ground (arith, view-move_bits s bits k hs b.words (omega (arith, b.size)))

-- Shifting keeps a bitmap of sixteen words.
pub shift_left-IsBitmap : (s : ℕ) {bits : List ℕ} → IsBitmap bits → IsBitmap (shift_left bits s)
unfolding shift_left
shift_left-IsBitmap s {bits} b =
    ground (arith, no_bits-IsBitmap, shift_bits-IsBitmap (s % 64) (shift_words-IsBitmap (s / 64) b))

-- Digit `k` of the shifted bitmap is digit `k - s` of the old one, and the `s` lowest are cleared.
pub view-shift_left :
    (s : ℕ) {bits : List ℕ} (k : ℕ)
    → IsBitmap bits
    → k < 1024
    → view (shift_left bits s) k ≡ (if ltb k s then 0 else view bits (k - s))
unfolding shift_left
view-shift_left s {bits} k b h = ground (
  arith,
  view-no_bits k,
  view-shift_bits (s % 64) k (shift_words-IsBitmap (s / 64) b),
  view-shift_words (s / 64) (k - s % 64) b,
)

-- A digit is tested.
pub test_bit_lem : (bits : List ℕ) (k : ℕ) → k < 1024 → test_bit bits k ≡ not (view bits k == 0)
unfolding test_bit
test_bit_lem bits k h =
    let w : ℕ = get_or bits (k / 64) 0 in
    ground (
      arith,
      bit_and-two-pow w (k % 64),
      bit-le w (k % 64),
      two-pow-lt (k % 64) 64 (omega arith),
      one-le-pow (k % 64) 2 (omega arith),
    )

pub set_bit-IsBitmap : (k : ℕ) {bits : List ℕ} → IsBitmap bits → IsBitmap (set_bit bits k)
unfolding set_bit
set_bit-IsBitmap k {bits} b = record {
  size = ground (arith, length-set bits (k / 64) (bit_or (get_or bits (k / 64) 0) (2 ^ (k % 64))));
  words = λ i. ground (
    arith,
    b.words i,
    b.words (k / 64),
    bit_or-lt (get_or bits (k / 64) 0) (2 ^ (k % 64)) 64,
    two-pow-lt (k % 64) 64 (omega arith),
    get_or-set_self bits (k / 64) (bit_or (get_or bits (k / 64) 0) (2 ^ (k % 64))) 0,
    get_or-set_ne bits (k / 64) i (bit_or (get_or bits (k / 64) 0) (2 ^ (k % 64))) 0,
  );
}

-- A digit is set, and the others stay.
pub view-set_bit :
    (k j : ℕ) {bits : List ℕ}
    → IsBitmap bits
    → k < 1024
    → view (set_bit bits k) j ≡ (if j == k then 1 else view bits j)
unfolding set_bit
view-set_bit k j {bits} b h =
    let w : ℕ = get_or bits (k / 64) 0 in
    let v : ℕ = bit_or w (2 ^ (k % 64)) in
    ground (
      arith,
      bit-bit_or w (2 ^ (k % 64)) (j % 64),
      bit-two-pow (k % 64) (j % 64),
      bit-le w (j % 64),
      get_or-set_self bits (k / 64) v 0,
      get_or-set_ne bits (k / 64) (j / 64) v 0,
    )
