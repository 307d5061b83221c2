-- ===== src/Config/Show/Laws.antt =====
-- What is printed is read back by the parsers of src/config.rs.
use soulvpn.Base.{
  ℕ, zero, suc, ◌+◌, ◌-◌, ◌*◌, ◌/◌, ◌%◌, ◌^◌, ◌≤◌, ◌<◌, ◌≡◌, refl, ap, Bool-cases, inl, inr, ◌∙◌,
  Bool, true, false, ◌&&◌, Option, none, some, [], ◌∷◌, ◌++◌, map, ltb, ◌==◌, ==_iff, if◌then◌else◌,
  ok, arith,
}
use soulvpn.Config.{octet, four, parse_u8, parse_addr, parse_cidr}
use soulvpn.Config.Chars.{Text, split, split_once, from_str_radix, is_digit, read_digits}
use soulvpn.Config.Network.{all_below, all_below-true}
use soulvpn.Config.Show.{digits, joined, show_addr, show_cidr}

-- A text without a character.
abbrev pub IsFree : ℕ → Text → Type 0
IsFree sep [] = Unit
IsFree sep (c ∷ cs) = ((c == sep) ≡ false) × IsFree sep cs

pub append-IsFree : (sep : ℕ) (s t : Text) → IsFree sep s → IsFree sep t → IsFree sep (s ++ t)
append-IsFree sep [] t free free' = free'
append-IsFree sep (c ∷ cs) t free free' = (free.0, append-IsFree sep cs t free.1 free')

split-append : (sep : ℕ) (s t : Text) → IsFree sep s → split sep (joined sep s t) ≡ s ∷ split sep t
split-append sep [] t free = let same : (sep == sep) ≡ true = ground arith in rw same refl
split-append sep (c ∷ cs) t free = rw (free.0, split-append sep cs t free.1) refl

split-IsFree : (sep : ℕ) (s : Text) → IsFree sep s → split sep s ≡ s ∷ []
split-IsFree sep [] free = refl
split-IsFree sep (c ∷ cs) free = rw (free.0, split-IsFree sep cs free.1) refl

pub split_once-append :
    (sep : ℕ) (s t : Text) → IsFree sep s → split_once sep (joined sep s t) ≡ some (s, t)
split_once-append sep [] t free = let same : (sep == sep) ≡ true = ground arith in rw same refl
split_once-append sep (c ∷ cs) t free = rw (free.0, split_once-append sep cs t free.1) refl

-- A character that is no digit.
abbrev pub IsNoDigit : ℕ → Type 0
IsNoDigit sep = (n : ℕ) → (48 + n % 10 == sep) ≡ false

pub digits-IsFree : (sep room n : ℕ) → IsNoDigit sep → IsFree sep (digits room n)
unfolding digits
digits-IsFree sep zero n h = tt
digits-IsFree sep (suc room) n h =
    let last = h n in
    elim (ltb n 10)
      as (λ few. IsFree sep ((if few then [] else digits room (n / 10)) ++ (48 + n % 10) ∷ [])) [
        | true ↦ (last, tt)
        | false ↦
            append-IsFree sep (digits room (n / 10)) ((48 + n % 10) ∷ [])
              (digits-IsFree sep room (n / 10) h) (last, tt)
      ]

pub split_once-IsFree : (sep : ℕ) (s : Text) → IsFree sep s → split_once sep s ≡ none
split_once-IsFree sep [] free = refl
split_once-IsFree sep (c ∷ cs) free = rw (free.0, split_once-IsFree sep cs free.1) refl

abbrev then_read : ℕ → Option ℕ → Text → Option ℕ
then_read bound none s = none
then_read bound (some v) s = read_digits 10 bound v s

read_digits-append :
    (bound acc : ℕ) (s t : Text)
    → read_digits 10 bound acc (s ++ t) ≡ then_read bound (read_digits 10 bound acc s) t
unfolding read_digits
read_digits-append bound acc [] t = refl
read_digits-append bound acc (c ∷ cs) t =
    let value : ℕ = acc * 10 + (c - 48) in
    elim (Bool-cases (is_digit 10 c && ltb value bound)) [
      | inl good ↦ simp good (read_digits-append bound value cs t)
      | inr bad ↦ simp bad refl
    ]

read_digit :
    (bound acc n : ℕ)
    → acc * 10 + n % 10 < bound
    → read_digits 10 bound acc ((48 + n % 10) ∷ []) ≡ some (acc * 10 + n % 10)
unfolding read_digits
read_digit bound acc n small =
    let test : (is_digit 10 (48 + n % 10) && ltb (acc * 10 + (48 + n % 10 - 48)) bound) ≡ true =
      ground (arith, small) in
    simp test (ap some (omega arith))

-- A number is read back from its digits, where they are enough and it is in the bounds.
pub read_digits-digits :
    (room n bound : ℕ) → n < 10 ^ room → n < bound → read_digits 10 bound 0 (digits room n) ≡ some n
unfolding digits read_digits
read_digits-digits zero n bound fits small = ap some (omega (arith, fits))
read_digits-digits (suc room) n bound fits small = elim (Bool-cases (ltb n 10)) [
  | inl few ↦
      simp few (read_digit bound 0 n (ground (arith, small)) ∙ ap some (ground (arith, few)))
  | inr many ↦
      let front =
        read_digits-digits room (n / 10) bound (omega (arith, fits)) (omega (arith, small)) in
      simp many (
        read_digits-append bound 0 (digits room (n / 10)) ((48 + n % 10) ∷ [])
        ∙ simp front (read_digit bound (n / 10) n (omega (arith, small)) ∙ ap some (omega arith)))
]

abbrev pub reads : Option ℕ → ℕ → Bool
reads none n = false
reads (some m) n = m == n

pub reads-some : (found : Option ℕ) (n : ℕ) → reads found n ≡ true → found ≡ some n
reads-some none n h = cc
reads-some (some m) n h = ap some ((==_iff m n).0 h)

octets : all_below 256 (λ n. reads (octet (digits 3 n)) n) ≡ true
unfolding all_below digits read_digits
octets = refl

prefixes : all_below 33 (λ n. reads (parse_u8 (digits 3 n)) n) ≡ true
unfolding all_below digits read_digits from_str_radix
prefixes = refl

octet-digits : (n : ℕ) → n < 256 → octet (digits 3 n) ≡ some n
octet-digits n h =
    reads-some (octet (digits 3 n)) n
      (all_below-true 256 n (λ k. reads (octet (digits 3 k)) k) octets h)

parse_u8-digits : (n : ℕ) → n < 33 → parse_u8 (digits 3 n) ≡ some n
parse_u8-digits n h =
    reads-some (parse_u8 (digits 3 n)) n
      (all_below-true 33 n (λ k. reads (parse_u8 (digits 3 k)) k) prefixes h)

-- An address is read back.
pub parse_addr-show_addr : (ip : ℕ) → ip < 2 ^ 32 → parse_addr (show_addr ip) ≡ some ip
unfolding parse_addr show_addr
parse_addr-show_addr ip h =
    let a : ℕ = ip / 256 ^ 3 in
    let b : ℕ = ip / 256 ^ 2 % 256 in
    let c : ℕ = ip / 256 % 256 in
    let d : ℕ = ip % 256 in
    let free : (n : ℕ) → IsFree 46 (digits 3 n) = λ n. digits-IsFree 46 3 n (λ k. ground arith) in
    let t3 = joined 46 (digits 3 c) (digits 3 d) in
    let t2 = joined 46 (digits 3 b) t3 in
    let parts : split 46 (joined 46 (digits 3 a) t2)
        ≡ digits 3 a ∷ digits 3 b ∷ digits 3 c ∷ digits 3 d ∷ [] =
      split-append 46 (digits 3 a) t2 (free a)
      ∙ ap (◌∷◌ (digits 3 a)) (
          split-append 46 (digits 3 b) t3 (free b)
          ∙ ap (◌∷◌ (digits 3 b)) (
              split-append 46 (digits 3 c) (digits 3 d) (free c)
              ∙ ap (◌∷◌ (digits 3 c)) (split-IsFree 46 (digits 3 d) (free d)))) in
    let values : four (map octet (digits 3 a ∷ digits 3 b ∷ digits 3 c ∷ digits 3 d ∷ []))
        ≡ four (some a ∷ some b ∷ some c ∷ some d ∷ []) =
      simp
        (
          octet-digits a (omega arith),
          octet-digits b (omega arith),
          octet-digits c (omega arith),
          octet-digits d (omega arith),
        )
        refl in
    ap (λ texts. four (map octet texts)) parts ∙ values ∙ ap some (omega arith)

show_addr-IsFree : (ip : ℕ) → IsFree 47 (show_addr ip)
unfolding show_addr
show_addr-IsFree ip =
    let free : (n : ℕ) → IsFree 47 (digits 3 n) = λ n. digits-IsFree 47 3 n (λ k. ground arith) in
    let dot : (46 == 47) ≡ false = ground arith in
    let before : (n : ℕ) (t : Text) → IsFree 47 t → IsFree 47 (joined 46 (digits 3 n) t) =
      λ n t rest. append-IsFree 47 (digits 3 n) (46 ∷ t) (free n) (dot, rest) in
    before (ip / 256 ^ 3) _
      (before (ip / 256 ^ 2 % 256) _ (before (ip / 256 % 256) _ (free (ip % 256))))

-- What is printed as `{ip}/{prefix}` is read back by `parse_cidr` as that address and that prefix
-- length, for every address of 32 bits and every prefix length up to 32.
pub parse_cidr-show_cidr :
    (ip prefix : ℕ) → ip < 2 ^ 32 → prefix ≤ 32 → parse_cidr (show_cidr ip prefix) ≡ ok (ip, prefix)
unfolding parse_cidr show_cidr
parse_cidr-show_cidr ip prefix small short =
    let fits : ltb 32 prefix ≡ false = ground arith in
    rw
      (
        split_once-append 47 (show_addr ip) (digits 3 prefix) (show_addr-IsFree ip),
        parse_addr-show_addr ip small,
        parse_u8-digits prefix (omega arith),
        fits,
      )
      refl
