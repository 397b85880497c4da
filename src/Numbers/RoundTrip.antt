-- ===== src/Numbers/RoundTrip.antt =====
-- `string2ll` and `ll2string` are inverse to one another on the 64-bit integers and their canonical
-- decimal texts.
use native.Mathlib.Nat.{pow-suc}
use mmog.Common.{
  ℕ, zero, suc, ◌+◌, ◌-◌, ◌^◌, ◌≤◌, ◌<◌, ◌≡◌, refl, sym, ap, ◌∙◌, inl, inr, ◌⊎◌, arith, Bool, true,
  false, ◌&&◌, none, some, List, [], ◌∷◌, ◌++◌, append-nil, length, ltb, leb, ◌==◌, Bool-cases,
  Option-cases, and_false, not_below, ℤ, pos, negsuc,
}
use mmog.Memory.Signed.{Fits}
use mmog.Numbers.{
  in_range, parse_digits, parse_unsigned, string2ll, print_digits, number_text, ll2string,
}
use mmog.Numbers.Digits.{
  parse_first, parse_first-print_digits, print_digits-parse_digits, parse_digits-lt,
  parse_digits-pos, print_digits_fuel, length-print_digits,
}

parse_unsigned-first :
    (negative : Bool) (slen v : ℕ) (s : List ℕ)
    → parse_first s ≡ some v
    → parse_unsigned negative slen s ≡ in_range negative (some v)
unfolding parse_unsigned parse_first
parse_unsigned-first negative slen v [] h = cc
parse_unsigned-first negative slen v (c ∷ cs) h = ground arith

read_back : (n : ℕ) → 0 < n → n < 2 ^ 64 → parse_first (print_digits 32 n []) ≡ some n
read_back n p h = parse_first-print_digits 32 n [] p (omega arith) h ∙ (unfold parse_digits in refl)

pub length-number_text : (v : ℤ) → Fits 8 v → length (number_text v) ≤ 20
unfolding number_text
length-number_text (pos n) f = omega (
  arith,
  ap length (print_digits_fuel 19 13 n [] (omega arith) (omega arith)),
  length-print_digits 19 n [],
)
length-number_text (negsuc n) f = omega (
  arith,
  ap length (print_digits_fuel 19 13 (suc n) [] (omega arith) (omega arith)),
  length-print_digits 19 (suc n) [],
)

string2ll-sign : (cs : List ℕ) → string2ll (b'-' ∷ cs) ≡ parse_unsigned true (suc (length cs)) cs
unfolding string2ll
string2ll-sign cs = ground arith

-- With room for 20 characters and the nul byte nothing is cut off.
pub ll2string-number_text :
    (len : ℕ) (v : ℤ) → Fits 8 v → 21 ≤ len → ll2string len v ≡ number_text v
unfolding ll2string
ll2string-number_text len v f room =
    let bound = length-number_text v f in
    let some_room : (len == 0) ≡ false = ground arith in
    let fits : ltb len (length (number_text v) + 1) ≡ false = not_below len _ (omega arith) in
    rw (some_room, fits)

-- Without a sign the number starts at its first digit.
string2ll-first :
    (v : ℕ) (s : List ℕ) → parse_first s ≡ some v → string2ll s ≡ in_range false (some v)
unfolding string2ll parse_first
string2ll-first v [] h = cc
string2ll-first v (c ∷ cs) h =
    let lo : (c == b'0') ≡ false = ground arith in
    let hi : (c == b'-') ≡ false = ground arith in
    rw (lo, and_false, hi) (parse_unsigned-first false _ v (c ∷ cs) (unfold parse_first in h))

string2ll-number_text : (v : ℤ) → Fits 8 v → string2ll (number_text v) ≡ some v
unfolding number_text
string2ll-number_text (pos zero) f = unfold print_digits string2ll in refl
string2ll-number_text (pos (suc n)) f =
    string2ll-first (suc n) _ (read_back (suc n) (omega arith) (omega arith))
    ∙ (unfold in_range in ground arith)
string2ll-number_text (negsuc n) f =
    string2ll-sign _
    ∙ parse_unsigned-first true _ (suc n) _ (read_back (suc n) (omega arith) (omega arith))
    ∙ (unfold in_range in ground arith)

-- A `long long` printed into a buffer of at least 21 bytes is read back as it was.
pub string2ll-ll2string :
    (len : ℕ) (v : ℤ) → Fits 8 v → 21 ≤ len → string2ll (ll2string len v) ≡ some v
string2ll-ll2string len v f room =
    ap string2ll (ll2string-number_text len v f room) ∙ string2ll-number_text v f

print_digits_one : (d : ℕ) (buf : List ℕ) → d < 10 → print_digits 1 d buf ≡ (b'0' + d) ∷ buf
unfolding print_digits
print_digits_one d buf lt = ground arith

-- The bytes that the parser accepts as a positive number are those that the printer writes.
canonical_digits :
    (c : ℕ) (cs : List ℕ) (n : ℕ)
    → (leb b'1' c && leb c b'9') ≡ true
    → parse_digits cs (c - b'0') ≡ some n
    → n < 2 ^ 64
    → (0 < n) × (print_digits 32 n [] ≡ c ∷ cs)
canonical_digits c cs n first h small =
    let (lo, hi) : (b'1' ≤ c) × (c ≤ b'9') = (ground arith, ground arith) in
    let bound : n < 10 ^ (1 + length cs) = omega (
      arith,
      parse_digits-lt cs (c - b'0') n 10 h (omega arith),
      pow-suc 10 (length cs),
      one_more,
    ) in
    (
      parse_digits-pos cs (c - b'0') n h (omega arith),
      print_digits_fuel 20 12 n [] (omega arith) (omega arith)
          ∙ sym (print_digits_fuel 20 (1 + length cs) n [] (omega arith) (omega arith))
          ∙ ap (λ (f : ℕ). print_digits f n []) (omega arith)
          ∙ print_digits_fuel (1 + length cs) 20 n [] bound (omega arith)
          ∙ print_digits-parse_digits cs 1 (c - b'0') n [] (omega arith) h
          ∙ last_digit,
    )
  where
    one_more : 10 ^ (1 + length cs) ≡ 10 ^ suc (length cs)
    one_more = ap (λ (f : ℕ). 10 ^ f) (omega arith)

    last_digit : print_digits 1 (c - b'0') (cs ++ []) ≡ c ∷ cs
    last_digit =
        rw append-nil
          (print_digits_one (c - b'0') cs (ground arith) ∙ ap (λ (d : ℕ). d ∷ cs) (ground arith))

in_range-lt : (negative : Bool) (n : ℕ) (v : ℤ) → in_range negative (some n) ≡ some v → n < 2 ^ 64
unfolding in_range
in_range-lt true n v h = ground arith
in_range-lt false n v h = ground arith

parse_unsigned_inv :
    (negative : Bool) (slen c : ℕ) (cs : List ℕ) (v : ℤ)
    → parse_unsigned negative slen (c ∷ cs) ≡ some v
    → (c == b'0' && slen == 1) ≡ false
    → (n : ℕ) × (0 < n) × (print_digits 32 n [] ≡ c ∷ cs) × (in_range negative (some n) ≡ some v)
unfolding parse_unsigned
parse_unsigned_inv negative slen c cs v h ne = elim (Bool-cases (leb b'1' c && leb c b'9')) [
  | inl first ↦ with_value first (Option-cases (parse_digits cs (c - b'0'))) (rw first at h)
  | inr other ↦ absurd (none≢some (rw (other, ne) at h))
]
  where
    none≢some : none ≡ some v → ⊥
    none≢some e = cc

    with_value :
        (leb b'1' c && leb c b'9') ≡ true
        → (parse_digits cs (c - b'0') ≡ none) ⊎ ((n : ℕ) × (parse_digits cs (c - b'0') ≡ some n))
        → in_range negative (parse_digits cs (c - b'0')) ≡ some v
        → (n : ℕ) × (0 < n)
          × (print_digits 32 n [] ≡ c ∷ cs)
          × (in_range negative (some n) ≡ some v)
    with_value first (inl e) q = absurd (none≢some (unfold in_range in (rw e at q)))
    with_value first (inr (n, e)) q =
        let range : in_range negative (some n) ≡ some v = rw e at q in
        let (p, text) = canonical_digits c cs n first e (in_range-lt negative n v range) in
        (n, p, text, range)

zero_text :
    (c : ℕ) (cs : List ℕ) (v : ℤ)
    → (length (c ∷ cs) == 1 && c == b'0') ≡ true
    → some (pos 0) ≡ some v
    → Fits 8 v × (number_text v ≡ c ∷ cs)
unfolding number_text print_digits
zero_text c [] v h e =
    let at : v ≡ pos 0 = cc in rw at (omega arith, ap (λ (d : ℕ). d ∷ []) (ground arith))
zero_text c (d ∷ cs) v h e = absurd (ground arith)

positive_text :
    (n : ℕ) (v : ℤ) (s : List ℕ)
    → 0 < n
    → print_digits 32 n [] ≡ s
    → in_range false (some n) ≡ some v
    → Fits 8 v × (number_text v ≡ s)
unfolding number_text in_range
positive_text n v s p text range =
    let at : v ≡ pos n = ground arith in
    let small : n < 2 ^ 63 = ground arith in rw at (omega arith, text)

negative_text :
    (c : ℕ) (cs : List ℕ) (v : ℤ)
    → c ≡ b'-'
    → parse_unsigned true (length (c ∷ cs)) cs ≡ some v
    → Fits 8 v × (number_text v ≡ c ∷ cs)
unfolding number_text
negative_text c [] v is_minus h = absurd (unfold parse_unsigned in cc)
negative_text c (d ∷ ds) v is_minus h =
    let (n, p, text, range) =
      parse_unsigned_inv true (suc (suc (length ds))) d ds v h (ground arith) in
    by_sign n p text range
  where
    by_sign :
        (n : ℕ)
        → 0 < n
        → print_digits 32 n [] ≡ d ∷ ds
        → in_range true (some n) ≡ some v
        → Fits 8 v × (number_text v ≡ c ∷ d ∷ ds)
    by_sign zero p text range = elim p [ ]
    by_sign (suc n) p text range =
        let at : v ≡ negsuc n = unfold in_range in ground arith in
        let small : n < 2 ^ 63 = unfold in_range in ground arith in
        rw at (omega arith, rw (text, is_minus))

-- What the parser accepts is a 64-bit integer, and the text is the one that the printer writes for
-- it: no sign but `-`, no leading zero, no other byte.
pub string2ll-canonical :
    (s : List ℕ) (v : ℤ) → string2ll s ≡ some v → Fits 8 v × (number_text v ≡ s)
unfolding string2ll
string2ll-canonical [] v h = cc
string2ll-canonical (c ∷ cs) v h = elim (Bool-cases (length (c ∷ cs) == 1 && c == b'0')) [
  | inl zero_only ↦ zero_text c cs v zero_only (rw zero_only at h)
  | inr no_zero ↦ elim (Bool-cases (c == b'-')) [
    | inl minus ↦ negative_text c cs v (ground arith) (rw (no_zero, minus) at h)
    | inr plus ↦
        let (n, p, text, range) =
          parse_unsigned_inv false _ c cs v (rw (no_zero, plus) at h) (ground arith) in
        positive_text n v (c ∷ cs) p text range
  ]
]
