-- ===== src/Numbers/Digits.antt =====
-- The two digit loops undo one another.
use native.Mathlib.Nat.{pow-suc}
use mmog.Common.{
  ℕ, zero, suc, ◌+◌, ◌-◌, ◌*◌, ◌/◌, ◌%◌, ◌^◌, ◌≤◌, ◌<◌, ◌≡◌, ap, ap₂, ◌∙◌, inl, inr, arith, true,
  false, ◌&&◌, Option, none, some, List, [], ◌∷◌, ◌++◌, length, ltb, leb, ◌==◌, if◌then◌else◌,
  Bool-cases,
}
use mmog.Numbers.{ullong_max, parse_digits, print_digits}

-- A first digit from 1 to 9, and the loop behind it.
unfoldable pub parse_first : List ℕ → Option ℕ
parse_first [] = none
parse_first (c ∷ cs) = if leb b'1' c && leb c b'9' then parse_digits cs (c - b'0') else none

-- One more digit of a number that fits 64 bits.
parse_digits_step :
    (v : ℕ) (buf : List ℕ)
    → v < 2 ^ 64
    → parse_digits ((b'0' + v % 10) ∷ buf) (v / 10) ≡ parse_digits buf v
unfolding parse_digits
parse_digits_step v buf h = rw is_digit (rw small (rw fits (ap (parse_digits buf) value)))
  where
    is_digit : (leb b'0' (b'0' + v % 10) && leb (b'0' + v % 10) b'9') ≡ true
    is_digit = ground arith

    small : ltb (ullong_max / 10) (v / 10) ≡ false
    small = ground arith

    fits : ltb (ullong_max - (b'0' + v % 10 - b'0')) (v / 10 * 10) ≡ false
    fits = ground arith

    value : v / 10 * 10 + (b'0' + v % 10 - b'0') ≡ v
    value = omega arith

-- Printing a positive number in front of `buf` and reading it back leaves `buf` to be read.
pub parse_first-print_digits :
    (fuel v : ℕ) (buf : List ℕ)
    → 0 < v
    → v < 10 ^ fuel
    → v < 2 ^ 64
    → parse_first (print_digits fuel v buf) ≡ parse_digits buf v
unfolding print_digits parse_first
parse_first-print_digits zero v buf p h k = absurd (omega arith)
parse_first-print_digits (suc fuel) v buf p h k = elim (Bool-cases (v / 10 == 0)) [
  | inl last ↦ rw last (one_digit (ground arith))
  | inr more ↦ rw more (
      parse_first-print_digits fuel (v / 10) ((b'0' + v % 10) ∷ buf) (ground arith)
        (omega (arith, pow-suc 10 fuel)) (omega arith)
      ∙ parse_digits_step v buf k)
]
  where
    one_digit : v < 10 → parse_first ((b'0' + v % 10) ∷ buf) ≡ parse_digits buf v
    one_digit lt = rw first (ap (parse_digits buf) (omega arith))
      where
        first : (leb b'1' (b'0' + v % 10) && leb (b'0' + v % 10) b'9') ≡ true
        first = ground arith

-- A byte that the loop took is a digit.
parse_digits_inv :
    (c : ℕ) (cs : List ℕ) (a v : ℕ)
    → parse_digits (c ∷ cs) a ≡ some v
    → (b'0' ≤ c) × (c ≤ b'9') × (parse_digits cs (a * 10 + (c - b'0')) ≡ some v)
unfolding parse_digits
parse_digits_inv c cs a v h = ground arith

print_digits_step :
    (f a d : ℕ) (buf : List ℕ)
    → 0 < a
    → d < 10
    → print_digits (suc f) (a * 10 + d) buf ≡ print_digits f a ((b'0' + d) ∷ buf)
unfolding print_digits
print_digits_step f a d buf p lt =
    rw more
      (ap₂ (λ (q : ℕ) (r : ℕ). print_digits f q ((b'0' + r) ∷ buf)) (omega arith) (omega arith))
  where
    more : ((a * 10 + d) / 10 == 0) ≡ false
    more = ground arith

-- Printing what the loop read gives the bytes back.
pub print_digits-parse_digits :
    (cs : List ℕ) (f a v : ℕ) (buf : List ℕ)
    → 0 < a
    → parse_digits cs a ≡ some v
    → print_digits (f + length cs) v buf ≡ print_digits f a (cs ++ buf)
print_digits-parse_digits [] f a v buf p h =
    ap₂ (λ (g : ℕ) (n : ℕ). print_digits g n buf) (omega arith)
      (unfold parse_digits in ground arith)
print_digits-parse_digits (c ∷ cs) f a v buf p h =
    let (lo, hi, rest) = parse_digits_inv c cs a v h in
    ap (λ (g : ℕ). print_digits g v buf) (omega arith)
    ∙ print_digits-parse_digits cs (suc f) (a * 10 + (c - b'0')) v buf (omega arith) rest
    ∙ print_digits_step f a (c - b'0') (cs ++ buf) p (omega arith)
    ∙ ap (λ (x : ℕ). print_digits f a (x ∷ (cs ++ buf))) (omega arith)

pub parse_digits-pos : (cs : List ℕ) (a v : ℕ) → parse_digits cs a ≡ some v → 0 < a → 0 < v
parse_digits-pos [] a v h p = let e : a ≡ v = unfold parse_digits in ground arith in omega arith
parse_digits-pos (c ∷ cs) a v h p =
    parse_digits-pos cs (a * 10 + (c - b'0')) v (parse_digits_inv c cs a v h).2 (omega arith)

-- What the loop reads has as many digits as there are bytes, and fits 64 bits.
pub parse_digits-lt :
    (cs : List ℕ) (a v k : ℕ) → parse_digits cs a ≡ some v → a < k → v < k * 10 ^ length cs
parse_digits-lt [] a v k h lt = let e : a ≡ v = unfold parse_digits in ground arith in omega arith
parse_digits-lt (c ∷ cs) a v k h lt =
    let (lo, hi, rest) = parse_digits_inv c cs a v h in
    omega (
      arith,
      parse_digits-lt cs (a * 10 + (c - b'0')) v (k * 10) rest (omega arith),
      ap (λ (t : ℕ). k * t) (pow-suc 10 (length cs)),
    )

-- More fuel than digits changes nothing.
pub print_digits_fuel :
    (f k v : ℕ) (buf : List ℕ)
    → v < 10 ^ f
    → 0 < f
    → print_digits (f + k) v buf ≡ print_digits f v buf
unfolding print_digits
print_digits_fuel zero k v buf h p = elim p [ ]
print_digits_fuel (suc zero) k v buf h p =
    let e : 1 + k ≡ suc k = omega arith in
    let last : (v / 10 == 0) ≡ true = ground arith in rw (e, print_digits, last)
print_digits_fuel (suc (suc f)) k v buf h p =
    let e : suc (suc f) + k ≡ suc (suc f + k) = omega arith in
    rw e (
      ap (λ (t : List ℕ). if v / 10 == 0 then (b'0' + v % 10) ∷ buf else t)
        (print_digits_fuel (suc f) k (v / 10) ((b'0' + v % 10) ∷ buf)
          (omega (arith, pow-suc 10 (suc f))) (omega arith)))

pub length-print_digits : (f v : ℕ) (buf : List ℕ) → length (print_digits f v buf) ≤ f + length buf
unfolding print_digits
length-print_digits zero v buf = omega arith
length-print_digits (suc f) v buf =
    ground (arith, length-print_digits f (v / 10) ((b'0' + v % 10) ∷ buf))
