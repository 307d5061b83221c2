-- ===== src/Config/Bounds.antt =====
-- The numbers that the parsers of src/config.rs return are within their bounds.
use soulvpn.Base.{
  ℕ, ◌+◌, ◌-◌, ◌*◌, ◌^◌, ◌≤◌, ◌<◌, ◌≡◌, ◌&&◌, ◌||◌, Option, none, some, List, [], ◌∷◌, map, length,
  ltb, ◌==◌, ok, or_context, bind-ok, ap, refl, String, Result, err, bail_if-ok, arith, inl, inr,
  Bool-cases,
}
use soulvpn.Config.{octet, four, parse_u8, parse_addr, parse_cidr}
use soulvpn.Config.Chars.{Text, split, split_once, is_digit, read_digits}

read_digits_lt :
    (radix bound acc v : ℕ) (s : Text)
    → acc < bound
    → read_digits radix bound acc s ≡ some v
    → v < bound
unfolding read_digits
read_digits_lt radix bound acc v [] small h = ground (arith, h, small)
read_digits_lt radix bound acc v (c ∷ cs) small h =
    let value : ℕ = acc * radix + (c - 48) in
    elim (Bool-cases (is_digit radix c && ltb value bound)) [
      | inl good ↦
          let rest : read_digits radix bound value cs ≡ some v = simp good at h in
          read_digits_lt radix bound value v cs (ground (arith, good)) rest
      | inr bad ↦ let clash : none ≡ some v = simp bad at h in cc
    ]

octet_lt : (s : Text) (v : ℕ) → octet s ≡ some v → v < 256
octet_lt [] v h = cc
octet_lt (c ∷ []) v h = read_digits_lt 10 256 0 v (c ∷ []) (omega arith) h
octet_lt (c ∷ d ∷ cs) v h = elim (Bool-cases (c == 48 || ltb 1 (length cs))) [
  | inl bad ↦ let clash : none ≡ some v = simp bad at h in cc
  | inr good ↦ read_digits_lt 10 256 0 v (c ∷ d ∷ cs) (omega arith) (simp good at h)
]

abbrev Small : List (Option ℕ) → Type 0
Small [] = Unit {0}
Small (part ∷ parts) = ((v : ℕ) → part ≡ some v → v < 256) × Small parts

octets-Small : (parts : List Text) → Small (map octet parts)
octets-Small [] = tt
octets-Small (part ∷ parts) = (octet_lt part, octets-Small parts)

four_lt : (parts : List (Option ℕ)) (ip : ℕ) → Small parts → four parts ≡ some ip → ip < 2 ^ 32
four_lt [] ip small h = cc
four_lt (none ∷ ps) ip small h = cc
four_lt (some a ∷ []) ip small h = cc
four_lt (some a ∷ none ∷ ps) ip small h = cc
four_lt (some a ∷ some b ∷ []) ip small h = cc
four_lt (some a ∷ some b ∷ none ∷ ps) ip small h = cc
four_lt (some a ∷ some b ∷ some c ∷ []) ip small h = cc
four_lt (some a ∷ some b ∷ some c ∷ none ∷ ps) ip small h = cc
four_lt (some a ∷ some b ∷ some c ∷ some d ∷ e ∷ ps) ip small h = cc
four_lt (some a ∷ some b ∷ some c ∷ some d ∷ []) ip small h =
    let la = small.0 a refl in
    let lb = small.1.0 b refl in
    let lc = small.1.1.0 c refl in
    let ld = small.1.1.1.0 d refl in ground (arith, h, la, lb, lc, ld)

parse_addr_lt : (s : Text) (ip : ℕ) → parse_addr s ≡ some ip → ip < 2 ^ 32
unfolding parse_addr
parse_addr_lt s ip h = four_lt (map octet (split 46 s)) ip (octets-Small (split 46 s)) h

or_context-ok :
    {A : Type 0} (message : String) (r : Option A) (a : A)
    → or_context message r ≡ ok a
    → r ≡ some a
or_context-ok message none a h = cc
or_context-ok message (some b) a h = ground (arith, h)

abbrev pair_of : Result (ℕ × ℕ) → ℕ × ℕ
pair_of (ok p) = p
pair_of (err e) = (0, 0)

-- An address that was parsed has 32 bits, and its prefix length is at most 32.
pub parse_cidr_lem :
    (s : Text) (ip prefix : ℕ) → parse_cidr s ≡ ok (ip, prefix) → (ip < 2 ^ 32) × (prefix ≤ 32)
unfolding parse_cidr
parse_cidr_lem s ip prefix h =
    let (parts, cut, h1) =
      bind-ok (or_context "address must be CIDR, e.g. 10.66.66.1/24" (split_once 47 s)) _
        (ip, prefix) h in
    let (ip', found, h2) =
      bind-ok (or_context "parse IPv4 address" (parse_addr parts.0)) _ (ip, prefix) h1 in
    let (prefix', read, h3) =
      bind-ok (or_context "parse prefix length" (parse_u8 parts.1)) _ (ip, prefix) h2 in
    let (short, h4) = bail_if-ok (ltb 32 prefix') "prefix length must be <= 32" _ (ip, prefix) h3 in
    let pair : ◌≡◌ {A = ℕ × ℕ} (ip', prefix') (ip, prefix) = ap pair_of h4 in
    let small =
      parse_addr_lt parts.0 ip'
        (or_context-ok "parse IPv4 address" (parse_addr parts.0) ip' found) in
    let same : ip' ≡ ip = ap (λ p. p.0) pair in
    let same' : prefix' ≡ prefix = ap (λ p. p.1) pair in
    (omega (arith, small, same), ground (arith, short, same'))
