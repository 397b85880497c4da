-- ===== src/Numbers.antt =====
-- redis-stable/src/util.c: `string2ll`, `string2l` and `ll2string`. A string is the list of its
-- bytes; `char` is signed there, which no test below tells apart.
pub mod Digits
pub mod RoundTrip
pub mod Contract
mod Tests
use mmog.Common.{
  ℕ, zero, suc, ◌+◌, ◌-◌, ◌*◌, ◌/◌, ◌%◌, ◌^◌, ◌&&◌, Bool, true, false, Option, none, some, List, [],
  ◌∷◌, length, take, ltb, leb, ◌==◌, if◌then◌else◌, ℤ, pos, negsuc, ltb_ℤ, pos_part, neg_part,
}

abbrev pub ullong_max : ℕ
ullong_max = 2 ^ 64 - 1

abbrev pub llong_max : ℕ
llong_max = 2 ^ 63 - 1

-- The `while` loop of `string2ll` over the bytes left, and the test that it used them all.
unfoldable pub parse_digits : List ℕ → ℕ → Option ℕ
parse_digits [] v = some v
parse_digits (c ∷ cs) v =
    let rest = parse_digits cs (v * 10 + (c - b'0')) in
    if leb b'0' c && leb c b'9'
    then if ltb (ullong_max / 10) v
      then none
      else if ltb (ullong_max - (c - b'0')) (v * 10)
      then none
      else rest
    else none

-- `-v`, stored in a `long long`.
abbrev pub negated : ℕ → ℤ
negated zero = pos 0
negated (suc n) = negsuc n

-- The end of `string2ll`: the range of the result.
unfoldable pub in_range : Bool → Option ℕ → Option ℤ
in_range negative none = none
in_range true (some v) = if ltb (2 ^ 63) v then none else some (negated v)
in_range false (some v) = if ltb llong_max v then none else some (pos v)

-- `string2ll` from the first digit on.
unfoldable pub parse_unsigned : Bool → ℕ → List ℕ → Option ℤ
parse_unsigned negative slen [] = none
parse_unsigned negative slen (c ∷ cs) =
    if leb b'1' c && leb c b'9'
    then in_range negative (parse_digits cs (c - b'0'))
    else if c == b'0' && slen == 1
    then some (pos 0)
    else none

-- `string2ll`: `none` for the return value 0, otherwise `*value`.
unfoldable pub string2ll : List ℕ → Option ℤ
string2ll [] = none
string2ll (c ∷ cs) =
    let slen = length (c ∷ cs) in
    if slen == 1 && c == b'0'
    then some (pos 0)
    else if c == b'-'
    then parse_unsigned true slen cs
    else parse_unsigned false slen (c ∷ cs)

-- `string2l`, where `long` has 64 bits: the second range test always passes.
unfoldable pub string2l : List ℕ → Option ℤ
string2l s = elim (string2ll s) [
  | none ↦ none
  | some v ↦
      if ltb_ℤ v (negsuc llong_max) then none else if ltb_ℤ (pos llong_max) v then none else some v
]

-- The `do … while` loop of `ll2string`, which fills the buffer from its end.
unfoldable pub print_digits : ℕ → ℕ → List ℕ → List ℕ
print_digits zero v buf = buf
print_digits (suc fuel) v buf =
    let rest = print_digits fuel (v / 10) ((b'0' + v % 10) ∷ buf) in
    if v / 10 == 0 then (b'0' + v % 10) ∷ buf else rest

-- `char buf[32]`: there is room for at most that many rounds.
unfoldable pub number_text : ℤ → List ℕ
number_text (pos n) = print_digits 32 n []
number_text (negsuc n) = b'-' ∷ print_digits 32 (suc n) []

-- `ll2string` with a buffer of `len` bytes: what it writes before the nul byte. The length of that
-- is the return value.
unfoldable pub ll2string : ℕ → ℤ → List ℕ
ll2string len value =
    if len == 0
    then []
    else let text = number_text value in
      if ltb len (length text + 1) then take (len - 1) text else text
