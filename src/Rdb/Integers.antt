-- ===== src/Rdb/Integers.antt =====
-- Integers in a dump file.
use mmog.Common.{
  ℕ, ◌+◌, ◌-◌, ◌*◌, ◌/◌, ◌%◌, ◌^◌, ◌≤◌, ◌≡◌, ◌≢◌, refl, inl, inr, arith, Bool, true, ◌&&◌, some,
  List, [], ◌++◌, Bool-cases, ℤ, pos, negsuc, leb_ℤ,
}
use mmog.Memory.Signed.{Fits, to_word, of_word}
use mmog.Rdb.{encode_integer, integer_object, load_word, load_integer, load_len}

byte_back : (v : ℤ) → Fits 1 v → of_word 1 (to_word 8 v % 256 + 256 * 0) ≡ v
unfolding of_word to_word
byte_back (pos n) f = ground arith
byte_back (negsuc n) f = ground arith

half_back :
    (v : ℤ)
    → Fits 2 v
    → of_word 2 (to_word 8 v % 256 + 256 * (to_word 8 v / 2 ^ 8 % 256 + 256 * 0)) ≡ v
unfolding of_word to_word
half_back (pos n) f = ground arith
half_back (negsuc n) f = ground arith

word_back :
    (v : ℤ)
    → Fits 4 v
    → of_word 4 (
        to_word 8 v % 256
        + 256
          * (to_word 8 v / 2 ^ 8 % 256
              + 256 * (to_word 8 v / 2 ^ 16 % 256 + 256 * (to_word 8 v / 2 ^ 24 % 256 + 256 * 0))))
      ≡ v
unfolding of_word to_word
word_back (pos n) f = ground arith
word_back (negsuc n) f = ground arith

-- The range tests of the three widths.
in_byte : (v : ℤ) → (leb_ℤ (negsuc (2 ^ 7 - 1)) v && leb_ℤ v (pos (2 ^ 7 - 1))) ≡ true → Fits 1 v
in_byte (pos n) h = ground arith
in_byte (negsuc n) h = ground arith

in_half : (v : ℤ) → (leb_ℤ (negsuc (2 ^ 15 - 1)) v && leb_ℤ v (pos (2 ^ 15 - 1))) ≡ true → Fits 2 v
in_half (pos n) h = ground arith
in_half (negsuc n) h = ground arith

in_word : (v : ℤ) → (leb_ℤ (negsuc (2 ^ 31 - 1)) v && leb_ℤ v (pos (2 ^ 31 - 1))) ≡ true → Fits 4 v
in_word (pos n) h = ground arith
in_word (negsuc n) h = ground arith

-- What reading an encoded integer gives, from the first byte on.
pub record Encoded (encode : Bool) (v : ℤ) (rest bs : List ℕ) : Type 0 where
  pub enctype : ℕ
  pub payload : List ℕ
  pub head : load_len bs ≡ (enctype, true, payload)
  pub known : enctype ≤ 2
  pub value : load_integer enctype encode payload ≡ some (integer_object encode v, rest)

-- An integer that `rdbEncodeInteger` encodes is read back.
pub encode_integer-Encoded :
    (encode : Bool) (v : ℤ) (rest : List ℕ)
    → encode_integer v ≢ []
    → Encoded encode v rest (encode_integer v ++ rest)
unfolding encode_integer load_len load_integer load_word
encode_integer-Encoded encode v rest some_bytes =
    elim (Bool-cases (leb_ℤ (negsuc (2 ^ 7 - 1)) v && leb_ℤ v (pos (2 ^ 7 - 1)))) [
      | inl e ↦ rw e (record {
        enctype = 0;
        payload = _;
        head = refl;
        known = omega arith;
        value = rw (byte_back v (in_byte v e)) refl;
      })
      | inr f ↦ elim (Bool-cases (leb_ℤ (negsuc (2 ^ 15 - 1)) v && leb_ℤ v (pos (2 ^ 15 - 1)))) [
        | inl e ↦
            rw (f, e)
              (record {
                enctype = 1;
                payload = _;
                head = refl;
                known = omega arith;
                value = rw (half_back v (in_half v e)) refl;
              })
        | inr g ↦ elim (Bool-cases (leb_ℤ (negsuc (2 ^ 31 - 1)) v && leb_ℤ v (pos (2 ^ 31 - 1)))) [
          | inl e ↦
              rw (f, g, e)
                (record {
                  enctype = 2;
                  payload = _;
                  head = refl;
                  known = omega arith;
                  value = rw (word_back v (in_word v e)) refl;
                })
          | inr h ↦ absurd (some_bytes (rw (f, g, h) refl))
        ]
      ]
    ]
