-- ===== src/Crypto/Replay/Bounds.antt =====
-- The sizes of the window's parts: 16 words of 64 bits, and a nonce of 64 bits.
use soulvpn.Base.{
  ℕ, ◌-◌, ◌<◌, ◌^◌, ◌≡◌, refl, Bool, true, false, List, [], ◌∷◌, ltb, leb, if◌then◌else◌, arith,
}
use soulvpn.Crypto.Replay.{
  ReplayWindow, default, no_bits, shift_left, test_bit, replay_window, check_and_update, run,
}
use soulvpn.Crypto.Replay.Bitmap.{IsBitmap, no_bits-IsBitmap, shift_left-IsBitmap, set_bit-IsBitmap}

pub record IsBounded (w : ReplayWindow) : Type 0 where
  pub bitmap : IsBitmap w.bitmap
  pub highest : w.highest < 2 ^ 64

either :
    {X : Type 0} (P : X → Type 0) (c : Bool) (a b : X)
    → (c ≡ true → P a)
    → (c ≡ false → P b)
    → P (if c then a else b)
either P true a b yes_case no_case = yes_case refl
either P false a b yes_case no_case = no_case refl

check_and_update-IsBounded :
    (w : ReplayWindow) (nonce : ℕ)
    → nonce < 2 ^ 64
    → IsBounded w
    → IsBounded (check_and_update w nonce).0
unfolding check_and_update
check_and_update-IsBounded w nonce small b =
    let P : ReplayWindow × Bool → Type 0 = λ r. IsBounded r.0 in
    either P (ltb w.highest nonce) _ _
      (λ newer.
        let shift = nonce - w.highest in
        let bits = if leb replay_window shift then no_bits else shift_left w.bitmap shift in
        let kept : IsBitmap bits =
          either IsBitmap (leb replay_window shift) no_bits (shift_left w.bitmap shift)
            (λ far. no_bits-IsBitmap) (λ near. shift_left-IsBitmap shift b.bitmap) in
        record { bitmap = set_bit-IsBitmap 0 kept; highest = small })
      (λ older.
        let offset = w.highest - nonce in
        either P (leb replay_window offset) _ _ (λ far. b)
          (λ near.
            either P (test_bit w.bitmap offset) _ _ (λ seen. b)
              (λ fresh. record { bitmap = set_bit-IsBitmap offset b.bitmap; highest = b.highest })))

-- Nonces of 64 bits.
abbrev pub AreNonces : List ℕ → Type 0
AreNonces [] = Unit
AreNonces (n ∷ ns) = (n < 2 ^ 64) × AreNonces ns

run-IsBounded :
    (ns : List ℕ) (w : ReplayWindow) → AreNonces ns → IsBounded w → IsBounded (run w ns).0
run-IsBounded [] w small b = b
run-IsBounded (n ∷ ns) w small b =
    run-IsBounded ns (check_and_update w n).0 small.1 (check_and_update-IsBounded w n small.0 b)

-- After any sequence of 64-bit nonces, the bitmap of a new window has its 16 words, each below 2 ^ 64, and
-- the newest nonce is below 2 ^ 64.
pub run-default-IsBounded : (ns : List ℕ) → AreNonces ns → IsBounded (run default ns).0
run-default-IsBounded ns small =
    run-IsBounded ns default small (record { bitmap = no_bits-IsBitmap; highest = omega arith })
