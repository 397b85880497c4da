-- ===== src/Numbers/Tests.antt =====
-- Concrete runs of `string2ll`, `string2l` and `ll2string`.
use mmog.Common.{ℕ, ◌≡◌, ◌↔◌, refl, arith, none, some, List, [], ◌∷◌, negsuc}
use mmog.Memory.Signed.{Fits}
use mmog.Numbers.{string2ll, ll2string, print_digits, number_text, parse_unsigned}
use mmog.Numbers.Contract.{string2ll_iff}

-- "-120"
abbrev minus_120 : List ℕ
minus_120 = b'-' ∷ b'1' ∷ b'2' ∷ b'0' ∷ []

minus_120_printed : ll2string 21 (negsuc 119) ≡ minus_120
unfolding ll2string number_text print_digits
minus_120_printed = refl

-- A buffer of three bytes holds two of them.
minus_120_cut : ll2string 3 (negsuc 119) ≡ b'-' ∷ b'1' ∷ []
unfolding ll2string number_text print_digits
minus_120_cut = refl

leading_zero : string2ll (b'0' ∷ b'1' ∷ []) ≡ none
unfolding string2ll parse_unsigned
leading_zero = refl

plus_sign : string2ll (b'+' ∷ b'1' ∷ []) ≡ none
unfolding string2ll parse_unsigned
plus_sign = refl

string2ll_iff_example :
    (string2ll minus_120 ≡ some (negsuc 119))
    ↔ (Fits 8 (negsuc 119) × (ll2string 21 (negsuc 119) ≡ minus_120))
string2ll_iff_example = string2ll_iff 21 minus_120 (negsuc 119) (omega arith)
