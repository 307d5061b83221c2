-- ===== src/Config/Chars.antt =====
-- What src/config.rs uses of `str`: a text is the list of its characters' code points.
use soulvpn.Base.{
  ℕ, ◌+◌, ◌-◌, ◌*◌, Bool, ◌&&◌, ◌||◌, Option, none, some, List, [], ◌∷◌, ltb, leb, ◌==◌,
  if◌then◌else◌,
}

abbrev pub Text : Type 0
Text = List ℕ

-- `char::is_whitespace`, the `White_Space` characters of Unicode.
abbrev pub is_whitespace : ℕ → Bool
is_whitespace c =
    (leb 9 c && leb c 13)
    || c == 32
    || c == 133
    || c == 160
    || c == 5760
    || (leb 8192 c && leb c 8202)
    || c == 8232
    || c == 8233
    || c == 8239
    || c == 8287
    || c == 12288

abbrev pub trim_start : Text → Text
trim_start [] = []
trim_start (c ∷ cs) = let rest = trim_start cs in if is_whitespace c then rest else c ∷ cs

abbrev pub keep_unless_blank : ℕ → Text → Text
keep_unless_blank c [] = if is_whitespace c then [] else c ∷ []
keep_unless_blank c (d ∷ rest) = c ∷ d ∷ rest

-- A text of white space only has no end to keep.
abbrev pub trim_end : Text → Text
trim_end [] = []
trim_end (c ∷ cs) = keep_unless_blank c (trim_end cs)

abbrev pub trim : Text → Text
trim s = trim_end (trim_start s)

-- `trim_start_matches("0o")`
abbrev pub trim_octal : Text → Text
trim_octal [] = []
trim_octal (c ∷ []) = c ∷ []
trim_octal (c ∷ d ∷ cs) =
    let rest = trim_octal cs in if c == 48 && d == 111 then rest else c ∷ d ∷ cs

abbrev cons_first : ℕ → Option (Text × Text) → Option (Text × Text)
cons_first c none = none
cons_first c (some (part, rest)) = some (c ∷ part, rest)

-- `split_once`
abbrev pub split_once : ℕ → Text → Option (Text × Text)
split_once sep [] = none
split_once sep (c ∷ cs) =
    let rest = split_once sep cs in if c == sep then some ([], cs) else cons_first c rest

-- The first part of `split`.
abbrev pub first_part : ℕ → Text → Text
first_part sep [] = []
first_part sep (c ∷ cs) = let rest = first_part sep cs in if c == sep then [] else c ∷ rest

abbrev cons_head : ℕ → List Text → List Text
cons_head c [] = []
cons_head c (part ∷ parts) = (c ∷ part) ∷ parts

-- `split`
abbrev pub split : ℕ → Text → List Text
split sep [] = [] ∷ []
split sep (c ∷ cs) = let rest = split sep cs in if c == sep then [] ∷ rest else cons_head c rest

abbrev pub line_of : Text → Text
line_of [] = []
line_of (c ∷ []) = if c == 10 then [] else c ∷ []
line_of (c ∷ d ∷ cs) =
    let rest = line_of (d ∷ cs) in
    if c == 10 then [] else if c == 13 && d == 10 then [] else c ∷ rest

-- `lines().next()`; a carriage return before the line feed is not part of the line.
abbrev pub first_line : Text → Option Text
first_line [] = none
first_line (c ∷ cs) = some (line_of (c ∷ cs))

abbrev pub is_digit : ℕ → ℕ → Bool
is_digit radix c = leb 48 c && ltb c (48 + radix)

-- The value of a text of digits, if all are digits and no prefix reaches `bound`.
unfoldable pub read_digits : ℕ → ℕ → ℕ → Text → Option ℕ
read_digits radix bound acc [] = some acc
read_digits radix bound acc (c ∷ cs) =
    let value = acc * radix + (c - 48) in
    let rest = read_digits radix bound value cs in
    if is_digit radix c && ltb value bound then rest else none

-- `from_str_radix` of an unsigned type with the values below `bound`, for a radix of at most ten.
unfoldable pub from_str_radix : ℕ → ℕ → Text → Option ℕ
from_str_radix radix bound [] = none
from_str_radix radix bound (c ∷ []) = if c == 43 then none else read_digits radix bound 0 (c ∷ [])
from_str_radix radix bound (c ∷ d ∷ cs) =
    if c == 43 then read_digits radix bound 0 (d ∷ cs) else read_digits radix bound 0 (c ∷ d ∷ cs)
