-- ===== src/Numbers/Contract.antt =====
-- What `string2ll`, `string2l` and `ll2string` promise each other and their callers.
use mmog.Common.{
  ℕ, ◌+◌, ◌-◌, ◌≤◌, ◌≡◌, ◌↔◌, refl, sym, ap, ◌∙◌, inl, inr, arith, min, false, some, List, length,
  length-take, ltb, ◌==◌, Bool-cases, Option-cases, ℤ, pos, negsuc, ltb_ℤ,
}
use mmog.Memory.Signed.{Fits}
use mmog.Numbers.{llong_max, string2ll, string2l, ll2string, number_text}
use mmog.Numbers.RoundTrip.{string2ll-ll2string, string2ll-canonical, ll2string-number_text}

-- `string2ll` accepts a text, with a given value, exactly if the value is a 64-bit integer and the
-- text is the one that `ll2string` writes for it into a buffer of at least 21 bytes.
pub string2ll_iff :
    (len : ℕ) (s : List ℕ) (v : ℤ)
    → 21 ≤ len
    → (string2ll s ≡ some v) ↔ (Fits 8 v × (ll2string len v ≡ s))
string2ll_iff len s v room = (
  λ h. let (f, text) = string2ll-canonical s v h in (f, ll2string-number_text len v f room ∙ text),
  λ h. ap string2ll (sym h.1) ∙ string2ll-ll2string len v h.0 room,
)

-- `ll2string` writes the number cut off where the buffer ends, with one byte left for the nul: its
-- return value is the smaller of the two lengths.
pub length-ll2string :
    (len : ℕ) (v : ℤ) → length (ll2string len v) ≡ min (len - 1) (length (number_text v))
unfolding ll2string
length-ll2string len v = elim (Bool-cases (len == 0)) [
  | inl none_there ↦ rw none_there (ground arith)
  | inr there ↦ rw there (elim (Bool-cases (ltb len (length (number_text v) + 1))) [
    | inl short ↦ rw short (length-take (len - 1) (number_text v))
    | inr whole ↦ rw whole (ground arith)
  ])
]

in_long :
    (v : ℤ) → Fits 8 v → (ltb_ℤ v (negsuc llong_max) ≡ false) × (ltb_ℤ (pos llong_max) v ≡ false)
in_long (pos n) f = (ground arith, ground arith)
in_long (negsuc n) f = (ground arith, ground arith)

-- On a host with a `long` of 64 bits, `string2l` gives what `string2ll` gives.
pub string2l_lem : (s : List ℕ) → string2l s ≡ string2ll s
unfolding string2l
string2l_lem s = elim (Option-cases (string2ll s)) [
  | inl e ↦ rw (e, string2l) refl
  | inr (v, e) ↦
      let (lo, hi) = in_long v (string2ll-canonical s v e).0 in rw (e, string2l, lo, hi) refl
]
