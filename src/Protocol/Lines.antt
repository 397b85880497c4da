-- ===== src/Protocol/Lines.antt =====
-- A buffer that holds the start of what a peer is sending: whether the next line, or the next
-- argument, is whole.
use mmog.Common.{
  ℕ, zero, suc, ◌+◌, ◌/◌, ◌%◌, ◌^◌, ◌<◌, ◌≡◌, ◌≢◌, refl, ap, ap₂, ◌⊎◌, inl, inr, arith, true, false,
  Option, none, some, [], ◌∷◌, ◌++◌, length, take, drop, ◌==◌, Bool-cases, pos,
}
use mmog.Common.Bytes.{Bytes}
use mmog.Numbers.{print_digits, number_text, ll2string}
use mmog.Numbers.RoundTrip.{ll2string-number_text}
use mmog.Protocol.{find_cr}
use mmog.Protocol.Encode.{crlf}

-- No byte of the text ends a line or a string.
abbrev pub Plain : Bytes → Type 0
Plain [] = Unit
Plain (x ∷ s) = (13 < x) × Plain s

print_digits-Plain : (fuel v : ℕ) (buf : Bytes) → Plain buf → Plain (print_digits fuel v buf)
unfolding print_digits
print_digits-Plain zero v buf h = h
print_digits-Plain (suc fuel) v buf h =
    let digit : Plain ((b'0' + v % 10) ∷ buf) = (omega arith, h) in
    let more = print_digits-Plain fuel (v / 10) ((b'0' + v % 10) ∷ buf) digit in
    elim (Bool-cases (v / 10 == 0)) [ inl e ↦ rw e digit | inr e ↦ rw e more ]

pub ll2string-Plain : (n : ℕ) → n < 2 ^ 63 → Plain (ll2string 31 (pos n))
unfolding number_text
ll2string-Plain n h =
    rw (ll2string-number_text 31 (pos n) (omega arith, omega arith) (omega arith))
      (print_digits-Plain 32 n [] tt)

pub cons_inv : {x y : ℕ} {s t : Bytes} → x ∷ s ≡ y ∷ t → (x ≡ y) × (s ≡ t)
cons_inv e = (cc, cc)

cons≢[] : {x : ℕ} {s t : Bytes} → t ≡ x ∷ s → t ≢ []
cons≢[] e z = cc

-- The buffer `s` holds a line and what follows it, or only the start of the line.
pub data Line (text s future more : Bytes) : Type 0 where
  whole :
      (rest : Bytes)
      → s ≡ text ++ (crlf ++ rest)
      → rest ++ future ≡ more
      → find_cr s ≡ some (length text)
      → Line text s future more
  short :
      length s < length text + 2
      → (find_cr s ≡ none) ⊎ (find_cr s ≡ some (length text))
      → future ≢ []
      → Line text s future more

find_cr_cons :
    {x c : ℕ} (s : Bytes) (o : Option ℕ)
    → 13 < x
    → c ≡ x
    → find_cr s ≡ o
    → find_cr (c ∷ s) ≡ (elim o [ none ↦ none | some i ↦ some (suc i) ])
unfolding find_cr
find_cr_cons {x} {c} s o h e f =
    let not_cr : (c == b'\r') ≡ false = ground arith in
    let not_nul : (c == 0) ≡ false = ground arith in rw (not_cr, not_nul, f) refl

find_cr_here : (c : ℕ) (s : Bytes) → c ≡ b'\r' → find_cr (c ∷ s) ≡ some 0
unfolding find_cr
find_cr_here c s e = let cr : (c == b'\r') ≡ true = ground arith in rw cr refl

longer :
    {x c : ℕ} {t s future more : Bytes}
    → 13 < x
    → c ≡ x
    → Line t s future more
    → Line (x ∷ t) (c ∷ s) future more
longer {s} h e (Line.whole rest eq f found) =
    Line.whole rest (ap₂ (λ (y : ℕ) (r : Bytes). y ∷ r) e eq) f (find_cr_cons s _ h e found)
longer {s} h e (Line.short lt (inl missing) more) =
    Line.short (omega arith) (inl (find_cr_cons s _ h e missing)) more
longer {s} h e (Line.short lt (inr found) more) =
    Line.short (omega arith) (inr (find_cr_cons s _ h e found)) more

pub split-Line :
    (text s future more : Bytes)
    → Plain text
    → s ++ future ≡ text ++ (crlf ++ more)
    → Line text s future more
split-Line [] [] future more h e =
    Line.short (omega arith) (inl (unfold find_cr in refl)) (cons≢[] e)
split-Line [] (c ∷ []) future more h e =
    let (first, rest) = cons_inv e in
    Line.short (omega arith) (inr (find_cr_here c [] first)) (cons≢[] rest)
split-Line [] (c ∷ d ∷ s) future more h e =
    let (first, rest) = cons_inv e in
    let (second, behind) = cons_inv rest in
    Line.whole s (ap₂ (λ (x y : ℕ). x ∷ y ∷ s) first second) behind (find_cr_here c (d ∷ s) first)
split-Line (x ∷ t) [] future more h e =
    Line.short (omega arith) (inl (unfold find_cr in refl)) (cons≢[] e)
split-Line (x ∷ t) (c ∷ s) future more h e =
    let (first, rest) = cons_inv e in longer h.0 first (split-Line t s future more h.1 rest)

-- The same for bytes of which the number is known.
pub data Body (text s future more : Bytes) : Type 0 where
  all : (rest : Bytes) → s ≡ text ++ rest → rest ++ future ≡ more → Body text s future more
  part : length s < length text → future ≢ [] → Body text s future more

pub split-Body : (text s future more : Bytes) → s ++ future ≡ text ++ more → Body text s future more
split-Body [] s future more e = Body.all s refl e
split-Body (x ∷ t) [] future more e = Body.part (omega arith) (cons≢[] e)
split-Body (x ∷ t) (c ∷ s) future more e =
    let (first, rest) = cons_inv e in
    elim (split-Body t s future more rest) [
      | Body.all r eq f ↦ Body.all r (ap₂ (λ (y : ℕ) (q : Bytes). y ∷ q) first eq) f
      | Body.part lt ne ↦ Body.part (omega arith) ne
    ]

pub take_front : (s t : Bytes) → take (length s) (s ++ t) ≡ s
take_front [] t = refl
take_front (x ∷ s) t = ap (λ r. x ∷ r) (take_front s t)

pub drop_front : (s t : Bytes) → drop (length s) (s ++ t) ≡ t
drop_front [] t = refl
drop_front (x ∷ s) t = drop_front s t
