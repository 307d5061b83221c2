-- ===== src/Crypto/Replay.antt =====
-- src/crypto.rs, `ReplayWindow` (lines 22-23 and 57-143): the sliding window on the nonces of a session.
-- A word of the bitmap is a number below 2 ^ 64; the bitmap has `replay_words` of them.
pub mod Words
pub mod Bitmap
pub mod Refines
pub mod Bounds
use soulvpn.Base.{
  ℕ, zero, suc, ◌+◌, ◌-◌, ◌*◌, ◌/◌, ◌%◌, ◌^◌, ◌≡◌, refl, Bool, true, false, not, List, [], ◌∷◌,
  bit_and, bit_or, ltb, leb, ◌==◌, if◌then◌else◌, get_or, set, replicate,
}

abbrev pub replay_window : ℕ
replay_window = 1024

abbrev pub replay_words : ℕ
replay_words = replay_window / 64

pub record ReplayWindow : Type 0 where
  pub highest : ℕ
  -- Digit 0 of word 0 stands for `highest`; higher offsets are older nonces.
  pub bitmap : List ℕ

abbrev pub no_bits : List ℕ
no_bits = replicate replay_words 0

abbrev pub default : ReplayWindow
default = record { highest = 0; bitmap = no_bits }

-- The loop over `(0..REPLAY_WORDS).rev()`, with the rounds that are left; it works in place.
pub move_words : ℕ → ℕ → List ℕ → List ℕ
move_words word_shift zero bits = bits
move_words word_shift (suc i) bits =
    move_words word_shift i
      (set bits i (if leb word_shift i then get_or bits (i - word_shift) 0 else 0))

-- The loop over `bits.iter_mut()`, with the carry from the word before.
pub move_bits : ℕ → ℕ → List ℕ → List ℕ
move_bits bit_shift carry [] = []
move_bits bit_shift carry (w ∷ ws) =
    bit_or (w * 2 ^ bit_shift % 2 ^ 64) carry ∷ move_bits bit_shift (w / 2 ^ (64 - bit_shift)) ws

-- `if word_shift > 0 { … }`
pub shift_words : ℕ → List ℕ → List ℕ
shift_words word_shift bits =
    if ltb 0 word_shift then move_words word_shift replay_words bits else bits

-- `if bit_shift > 0 { … }`
pub shift_bits : ℕ → List ℕ → List ℕ
shift_bits bit_shift bits = if ltb 0 bit_shift then move_bits bit_shift 0 bits else bits

pub shift_left : List ℕ → ℕ → List ℕ
shift_left bits shift =
    if shift == 0
    then bits
    else if leb replay_window shift
    then no_bits
    else shift_bits (shift % 64) (shift_words (shift / 64) bits)

unfoldable pub test_bit : List ℕ → ℕ → Bool
test_bit bits offset =
    let word = offset / 64 in
    let digit = offset % 64 in
    if leb replay_words word then false else not (bit_and (get_or bits word 0) (2 ^ digit) == 0)

unfoldable pub set_bit : List ℕ → ℕ → List ℕ
set_bit bits offset =
    let word = offset / 64 in
    let digit = offset % 64 in
    if ltb word replay_words then set bits word (bit_or (get_or bits word 0) (2 ^ digit)) else bits

-- Returns the window after the call, and whether `nonce` was fresh.
unfoldable pub check_and_update : ReplayWindow → ℕ → ReplayWindow × Bool
check_and_update w nonce =
    if ltb w.highest nonce
    then (let shift = nonce - w.highest in
        let bits = if leb replay_window shift then no_bits else shift_left w.bitmap shift in
        (record { highest = nonce; bitmap = set_bit bits 0 }, true))
    else (let offset = w.highest - nonce in
        if leb replay_window offset
        then (w, false)
        else if test_bit w.bitmap offset
        then (w, false)
        else (record w { bitmap = set_bit w.bitmap offset }, true))

-- The answers to a sequence of nonces, and the window after it.
abbrev pub run : ReplayWindow → List ℕ → ReplayWindow × List Bool
run w [] = (w, [])
run w (n ∷ ns) =
    let (w', fresh) = check_and_update w n in
    let (last, answers) = run w' ns in (last, fresh ∷ answers)
