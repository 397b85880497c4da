-- ===== src/Rdb/Tests.antt =====
-- Concrete strings, saved and loaded, with a simple compressor.
use mmog.Common.{
  ℕ, zero, suc, ◌≡◌, ◌≢◌, ◌≤◌, refl, sym, ap, inl, inr, arith, true, false, Option, none, some,
  List, [], ◌∷◌, length, replicate, if◌then◌else◌, Bool-cases, ℤ, pos, negsuc,
}
use mmog.Common.Bytes.{equal_strings, equal_strings_iff}
use mmog.Memory.Signed.{Fits, to_word, of_word}
use mmog.Numbers.{string2ll}
use mmog.Numbers.Contract.{string2ll_iff}
use mmog.Rdb.{
  raw, int, save_len, encode_integer, load_integer, load_word, integer_object, save_string,
}
use mmog.Rdb.Strings.{Loads, load_string-save_string}

-- A string of equal bytes is compressed to one of them.
abbrev pack_equal : List ℕ → ℕ → List ℕ
pack_equal [] n = []
pack_equal (x ∷ s) zero = []
pack_equal (x ∷ s) (suc n) =
    if equal_strings (x ∷ s) (replicate (length (x ∷ s)) x) then x ∷ [] else []

abbrev unpack_equal : List ℕ → ℕ → Option (List ℕ)
unpack_equal [] n = none
unpack_equal (x ∷ s) n = some (replicate n x)

length-pack_equal : (s : List ℕ) (n : ℕ) → length (pack_equal s n) ≤ n
length-pack_equal [] n = omega arith
length-pack_equal (x ∷ s) zero = omega arith
length-pack_equal (x ∷ s) (suc n) = ground arith

unpack_equal-pack_equal :
    (s : List ℕ) (n : ℕ) → pack_equal s n ≢ [] → unpack_equal (pack_equal s n) (length s) ≡ some s
unpack_equal-pack_equal [] n h = absurd (h refl)
unpack_equal-pack_equal (x ∷ s) zero h = absurd (h refl)
unpack_equal-pack_equal (x ∷ s) (suc n) h =
    elim (Bool-cases (equal_strings (x ∷ s) (replicate (length (x ∷ s)) x))) [
      | inl e ↦ rw e (ap some (sym ((equal_strings_iff _ _).0 e)))
      | inr e ↦ absurd (h (rw e refl))
    ]

-- A number that is the whole string.
abbrev whole_number : List ℕ → ℤ × ℕ
whole_number s = elim (string2ll s) [ none ↦ (pos 0, 0) | some v ↦ (v, length s) ]

whole_number-Fits : (s : List ℕ) → Fits 8 (whole_number s).0
whole_number-Fits s = by_result (string2ll s) (λ v e. ((string2ll_iff 21 s v (omega arith)).0 e).0)
  where
    by_result :
        (o : Option ℤ)
        → ((v : ℤ) → o ≡ some v → Fits 8 v)
        → Fits 8 (elim o as (λ _. ℤ × ℕ) [ none ↦ (pos 0, 0) | some v ↦ (v, length s) ]).0
    by_result none h = (omega arith, omega arith)
    by_result (some v) h = h v refl

-- Thirty bytes are compressed.
load_string-save_string_example :
    Loads whole_number pack_equal unpack_equal false
      (replicate 30 b'a')
      (save_string whole_number pack_equal unpack_equal true (raw (replicate 30 b'a')))
      (7 ∷ [])
load_string-save_string_example =
    load_string-save_string whole_number pack_equal unpack_equal length-pack_equal
      unpack_equal-pack_equal whole_number-Fits true false (raw (replicate 30 b'a')) (7 ∷ [])
      (omega arith)

-- -2 takes two bytes, and is read back as a number.
minus_two_saved : encode_integer (negsuc 1) ≡ 0xC0 ∷ 0xFE ∷ []
unfolding encode_integer to_word
minus_two_saved = refl

minus_two_loaded : load_integer 0 true (0xFE ∷ []) ≡ some (int (negsuc 1), [])
unfolding load_integer load_word integer_object of_word
minus_two_loaded = refl

-- 16,383 is the largest length of two bytes.
two_bytes : save_len 16383 ≡ 0x7F ∷ 0xFF ∷ []
unfolding save_len
two_bytes = refl
