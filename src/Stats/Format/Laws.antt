-- ===== src/Stats/Format/Laws.antt =====
-- What the texts of src/stats.rs say of the numbers.
use soulvpn.Base.{
  ℕ, ◌+◌, ◌*◌, ◌/◌, ◌%◌, ◌^◌, ◌<◌, ◌≡◌, refl, ap, ◌∙◌, true, false, Bool-cases, inl, inr, Option,
  none, some, [], ◌∷◌, ◌++◌, ltb, ◌==◌, arith,
}
use soulvpn.Config.Chars.{Text, split_once, read_digits}
use soulvpn.Config.Show.{joined, show_u64}
use soulvpn.Config.Show.Laws.{
  IsFree, IsNoDigit, append-IsFree, digits-IsFree, split_once-append, split_once-IsFree,
  read_digits-digits, reads, reads-some,
}
use soulvpn.Config.Network.{all_below, all_below-true}
use soulvpn.Stats.{as_secs}
use soulvpn.Stats.Format.{two_digits, format_duration}

-- A u64 in decimal.
abbrev number : Text → Option ℕ
number s = read_digits 10 (2 ^ 64) 0 s

abbrev scaled : ℕ → Option ℕ → Option ℕ → Option ℕ
scaled k (some a) (some b) = some (a * k + b)
scaled k (some a) none = none
scaled k none b = none

-- How a text of hours, minutes and seconds is read: the first two may be missing.
abbrev read_s : Option (Text × Text) → Option ℕ
read_s (some (s, [])) = number s
read_s (some (s, c ∷ cs)) = none
read_s none = none

abbrev read_m : Text → Option (Text × Text) → Option ℕ
read_m t (some (m, rest)) = scaled 60 (number m) (read_s (split_once 115 rest))
read_m t none = read_s (split_once 115 t)

abbrev read_h : Text → Option (Text × Text) → Option ℕ
read_h t (some (h, rest)) = scaled 3600 (number h) (read_m rest (split_once 109 rest))
read_h t none = read_m t (split_once 109 t)

unfoldable pub read_duration : Text → Option ℕ
read_duration t = read_h t (split_once 104 t)

no_digit : (sep : ℕ) → 57 < sep → IsNoDigit sep
no_digit sep h = λ n. ground (arith, h)

two_digits-IsFree : (sep n : ℕ) → 57 < sep → IsFree sep (two_digits n)
two_digits-IsFree sep n h = (no_digit sep h (n / 10), (no_digit sep h n, tt))

two_digit_numbers : all_below 100 (λ n. reads (number (two_digits n)) n) ≡ true
unfolding all_below read_digits
two_digit_numbers = refl

number-two_digits : (n : ℕ) → n < 100 → number (two_digits n) ≡ some n
number-two_digits n small =
    reads-some (number (two_digits n)) n
      (all_below-true 100 n (λ k. reads (number (two_digits k)) k) two_digit_numbers small)

number-show_u64 : (n : ℕ) → n < 2 ^ 64 → number (show_u64 n) ≡ some n
number-show_u64 n small = read_digits-digits 20 n (2 ^ 64) (omega (arith, small)) small

abbrev seconds : ℕ → Text
seconds sec = two_digits sec ++ (115 ∷ [])

read_seconds : (sec : ℕ) → sec < 60 → read_s (split_once 115 (seconds sec)) ≡ some sec
read_seconds sec small =
    ap read_s (split_once-append 115 (two_digits sec) [] (two_digits-IsFree 115 sec (omega arith)))
    ∙ number-two_digits sec (omega (arith, small))

seconds-IsFree : (sep sec : ℕ) → 57 < sep → (115 == sep) ≡ false → IsFree sep (seconds sec)
seconds-IsFree sep sec h other =
    append-IsFree sep (two_digits sec) (115 ∷ []) (two_digits-IsFree sep sec h) (other, tt)

-- Minutes and seconds, with the minutes in either form.
read_minutes :
    (t : Text) (m sec : ℕ)
    → IsFree 109 t
    → number t ≡ some m
    → sec < 60
    → (let text = joined 109 t (seconds sec) in
        read_m text (split_once 109 text) ≡ some (m * 60 + sec))
read_minutes t m sec free value small =
    let text = joined 109 t (seconds sec) in
    ap (read_m text) (split_once-append 109 t (seconds sec) free)
    ∙ ap (λ a. scaled 60 a (read_s (split_once 115 (seconds sec)))) value
    ∙ ap (scaled 60 (some m)) (read_seconds sec small)

read_hours :
    (h m sec : ℕ)
    → h < 2 ^ 64
    → m < 60
    → sec < 60
    → read_duration (joined 104 (show_u64 h) (joined 109 (two_digits m) (seconds sec)))
      ≡ some (h * 3600 + (m * 60 + sec))
unfolding read_duration
read_hours h m sec small small' small'' =
    let rest = joined 109 (two_digits m) (seconds sec) in
    let text = joined 104 (show_u64 h) rest in
    ap (read_h text) (
      split_once-append 104 (show_u64 h) rest (digits-IsFree 104 20 h (no_digit 104 (omega arith))))
    ∙ ap (λ a. scaled 3600 a (read_m rest (split_once 109 rest))) (number-show_u64 h small)
    ∙ ap (scaled 3600 (some h)) (
        read_minutes (two_digits m) m sec (two_digits-IsFree 109 m (omega arith))
          (number-two_digits m (omega (arith, small'))) small'')

read_no_hours :
    (m sec : ℕ)
    → m < 2 ^ 64
    → sec < 60
    → read_duration (joined 109 (show_u64 m) (seconds sec)) ≡ some (m * 60 + sec)
unfolding read_duration
read_no_hours m sec small small' =
    let text = joined 109 (show_u64 m) (seconds sec) in
    let free : IsFree 104 text =
      append-IsFree 104 (show_u64 m) (109 ∷ seconds sec)
        (digits-IsFree 104 20 m (no_digit 104 (omega arith)))
        (ground arith, seconds-IsFree 104 sec (omega arith) (ground arith)) in
    ap (read_h text) (split_once-IsFree 104 text free)
    ∙ read_minutes (show_u64 m) m sec (digits-IsFree 109 20 m (no_digit 109 (omega arith)))
        (number-show_u64 m small) small'

read_no_minutes : (sec : ℕ) → sec < 2 ^ 64 → read_duration (joined 115 (show_u64 sec) []) ≡ some sec
unfolding read_duration
read_no_minutes sec small =
    let text = joined 115 (show_u64 sec) [] in
    let free : (sep : ℕ) → 57 < sep → (115 == sep) ≡ false → IsFree sep text = λ sep h other.
      append-IsFree sep (show_u64 sec) (115 ∷ []) (digits-IsFree sep 20 sec (no_digit sep h))
        (other, tt) in
    ap (read_h text) (split_once-IsFree 104 text (free 104 (omega arith) (ground arith)))
    ∙ ap (read_m text) (split_once-IsFree 109 text (free 109 (omega arith) (ground arith)))
    ∙ ap read_s (
        split_once-append 115 (show_u64 sec) []
          (digits-IsFree 115 20 sec (no_digit 115 (omega arith))))
    ∙ number-show_u64 sec small

-- A duration that is printed is read back, by the usual reading of hours, minutes and seconds, as its
-- whole seconds: for every number of seconds of a u64, with and without hours and minutes.
pub read_duration-format_duration :
    (d : ℕ) → as_secs d < 2 ^ 64 → read_duration (format_duration d) ≡ some (as_secs d)
unfolding format_duration
read_duration-format_duration d small =
    let s = as_secs d in
    let h : ℕ = s / 3600 in
    let m : ℕ = s % 3600 / 60 in
    let sec : ℕ = s % 60 in
    elim (Bool-cases (ltb 0 h)) [
      | inl hours ↦ simp hours (
          read_hours h m sec (omega (arith, small)) (omega arith) (omega arith)
          ∙ ap some (omega arith))
      | inr no_hours ↦ elim (Bool-cases (ltb 0 m)) [
        | inl minutes ↦
            simp (no_hours, minutes)
              (read_no_hours m sec (omega (arith, small)) (omega arith)
                ∙ ap some (ground (arith, no_hours)))
        | inr no_minutes ↦
            simp (no_hours, no_minutes)
              (read_no_minutes sec (omega (arith, small))
                ∙ ap some (ground (arith, no_hours, no_minutes)))
      ]
    ]
