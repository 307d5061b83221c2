-- ===== src/Crypto/Replay/Refines.antt =====
-- The bitmap of `ReplayWindow` implements a set of nonces: the specification keeps the list of all
-- nonces accepted so far, and the window answers as it does.
use soulvpn.Base.{
  ℕ, ◌+◌, ◌-◌, ◌≤◌, ◌<◌, max, ◌≡◌, refl, ap, ◌+◌, List, [], ◌∷◌, arith, ltb, leb, ◌==◌,
  if◌then◌else◌, Bool, true, false, not, ◌&&◌, ◌||◌,
}
use soulvpn.Crypto.Replay.{
  ReplayWindow, default, check_and_update, run, replay_window, no_bits, shift_left, set_bit,
}
use soulvpn.Crypto.Replay.Words.{view}
use soulvpn.Crypto.Replay.Bitmap.{
  IsBitmap, no_bits-IsBitmap, view-no_bits, shift_left-IsBitmap, view-shift_left, test_bit_lem,
  set_bit-IsBitmap, view-set_bit,
}

abbrev pub contains : ℕ → List ℕ → Bool
contains n [] = false
contains n (x ∷ xs) = n == x || contains n xs

abbrev pub newest : List ℕ → ℕ
newest [] = 0
newest (x ∷ xs) = max x (newest xs)

-- The specification: a nonce is fresh if it was not accepted before and is less than 1024 behind
-- the newest accepted one.
unfoldable pub is_fresh : List ℕ → ℕ → Bool
is_fresh seen n = not (contains n seen) && ltb (newest seen) (n + replay_window)

unfoldable pub accept : List ℕ → ℕ → List ℕ
unfolding is_fresh
accept seen n = if is_fresh seen n then n ∷ seen else seen

abbrev pub spec_run : List ℕ → List ℕ → List Bool
spec_run seen [] = []
spec_run seen (n ∷ ns) = is_fresh seen n ∷ spec_run (accept seen n) ns

pub contains-le : (n : ℕ) (seen : List ℕ) → contains n seen ≡ true → n ≤ newest seen
contains-le n [] h = cc
contains-le n (x ∷ xs) h = ground (arith, contains-le n xs)

-- The window `w` stands for the set `seen`.
pub record Refines (w : ReplayWindow) (seen : List ℕ) : Type 0 where
  pub bitmap : IsBitmap w.bitmap
  pub top : w.highest ≡ newest seen
  pub digits :
      (k : ℕ)
      → k < 1024
      → view w.bitmap k ≡ (if leb k w.highest && contains (w.highest - k) seen then 1 else 0)

pub default-Refines : Refines default []
default-Refines = record {
  bitmap = no_bits-IsBitmap;
  top = refl;
  digits = λ k h. ground (arith, view-no_bits k);
}

module _ {w : ReplayWindow} {seen : List ℕ} (r : Refines w seen) (n : ℕ) where
  -- The answer is that of the specification.
  pub check_and_update-fresh : (check_and_update w n).1 ≡ is_fresh seen n
  unfolding check_and_update is_fresh
  check_and_update-fresh = ground (
    arith,
    r.top,
    contains-le n seen,
    test_bit_lem w.bitmap (w.highest - n),
    r.digits (w.highest - n),
  )

  -- The bitmap once it is moved to a newer nonce.
  moved : List ℕ
  moved =
      let shift = n - w.highest in
      if leb replay_window shift then no_bits else shift_left w.bitmap shift

  moved-IsBitmap : IsBitmap moved
  unfolding moved
  moved-IsBitmap = ground (arith, no_bits-IsBitmap, shift_left-IsBitmap (n - w.highest) r.bitmap)

  view-moved :
      (k : ℕ)
      → k < 1024
      → view moved k ≡ (if ltb k (n - w.highest) then 0 else view w.bitmap (k - (n - w.highest)))
  unfolding moved
  view-moved k h = ground (arith, view-no_bits k, view-shift_left (n - w.highest) k r.bitmap h)

  -- A nonce above all others moves the window.
  ahead-Refines :
      w.highest < n → Refines (record { highest = n; bitmap = set_bit moved 0 }) (n ∷ seen)
  ahead-Refines above = record {
    bitmap = set_bit-IsBitmap 0 moved-IsBitmap;
    top = omega (arith, r.top);
    digits = λ k h. ground (
      arith,
      view-set_bit 0 k moved-IsBitmap,
      view-moved k h,
      r.digits (k - (n - w.highest)),
      r.top,
      contains-le (n - k) seen,
    );
  }

  behind-Refines :
      n ≤ w.highest
      → w.highest - n < 1024
      → Refines (record w { bitmap = set_bit w.bitmap (w.highest - n) }) (n ∷ seen)
  behind-Refines below near = record {
    bitmap = set_bit-IsBitmap (w.highest - n) r.bitmap;
    top = omega (arith, r.top);
    digits = λ k h. ground (arith, view-set_bit (w.highest - n) k r.bitmap near, r.digits k h);
  }

  pub check_and_update-Refines : Refines (check_and_update w n).0 (accept seen n)
  unfolding check_and_update is_fresh accept moved
  check_and_update-Refines = ground (
    arith,
    r.top,
    contains-le n seen,
    test_bit_lem w.bitmap (w.highest - n),
    r.digits (w.highest - n),
    ahead-Refines,
    behind-Refines,
  )

-- Over any sequence of nonces the window answers as the specification does.
pub run-spec_run :
    (ns : List ℕ) {w : ReplayWindow} {seen : List ℕ}
    → Refines w seen
    → (run w ns).1 ≡ spec_run seen ns
run-spec_run [] r = refl
run-spec_run (n ∷ ns) {w} {seen} r =
    rw (check_and_update-fresh r n)
      (ap (◌∷◌ (is_fresh seen n)) (run-spec_run ns (check_and_update-Refines r n)))

-- Over any sequence of nonces, the window that starts empty answers as the specification does: a
-- nonce is accepted exactly if it was not accepted before and is less than 1024 behind the newest
-- accepted one.
pub run-default-spec : (ns : List ℕ) → (run default ns).1 ≡ spec_run [] ns
run-default-spec ns = run-spec_run ns default-Refines

-- How often `m` was accepted, by the answers to a sequence of nonces.
abbrev pub times_accepted : ℕ → List ℕ → List Bool → ℕ
times_accepted m [] answers = 0
times_accepted m (n ∷ ns) [] = 0
times_accepted m (n ∷ ns) (a ∷ answers) =
    (if m == n && a then 1 else 0) + times_accepted m ns answers

times_accepted-spec_run :
    (m : ℕ) (seen ns : List ℕ)
    → times_accepted m ns (spec_run seen ns) ≤ (if contains m seen then 0 else 1)
unfolding is_fresh accept
times_accepted-spec_run m seen [] = ground arith
times_accepted-spec_run m seen (n ∷ ns) =
    ground (arith, times_accepted-spec_run m (accept seen n) ns)

-- Over any sequence of nonces, the window that starts empty accepts each nonce at most once.
pub accepted_once : (m : ℕ) (ns : List ℕ) → times_accepted m ns (run default ns).1 ≤ 1
accepted_once m ns = rw (run-default-spec ns) (times_accepted-spec_run m [] ns)
