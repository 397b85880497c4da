-- ===== src/Rdb/Strings.antt =====
-- String objects: what is saved is loaded again, whichever of the three encodings was chosen.
use mmog.Common.{
  ℕ, ◌+◌, ◌-◌, ◌*◌, ◌<◌, ◌≤◌, ◌≡◌, ◌≢◌, refl, sym, ◌∙◌, ◌⊎◌, inl, inr, arith, Bool, true, false,
  ◌&&◌, Option, some, List, [], ◌∷◌, ◌++◌, append_assoc, length, get_or, ltb, leb, ◌==◌,
  if◌then◌else◌, Bool-cases, ℤ, pos, negsuc, false≢true,
}
use mmog.Common.Bytes.{equal_strings, equal_strings_iff}
use mmog.Memory.Signed.{Fits}
use mmog.Numbers.{ll2string, number_text}
use mmog.Numbers.RoundTrip.{ll2string-number_text, length-number_text}
use mmog.Sds.Text.{from_long_long}
use mmog.Rdb.{
  lenerr, save_len, load_len, encode_integer, Object, raw, int, integer_object,
  try_integer_encoding, save_lzf, save_raw_string, save_long_long, save_string, unpack, load_lzf,
  load_string,
}
use mmog.Rdb.Lengths.{load_len-save_len, read-append}
use mmog.Rdb.Integers.{encode_integer-Encoded}

-- The string that an object stands for.
abbrev pub text : Object → List ℕ
text (raw s) = s
text (int v) = number_text v

-- The strings that a dump can hold, and the integers of a `long`.
abbrev pub IsStorable : Object → Type 0
IsStorable (raw s) = length s < lenerr
IsStorable (int v) = Fits 8 v

from_long_long_lem : (v : ℤ) → from_long_long v ≡ number_text v
unfolding from_long_long number_text
from_long_long_lem (pos n) = refl
from_long_long_lem (negsuc n) = refl

text-integer_object : (encode : Bool) (v : ℤ) → text (integer_object encode v) ≡ number_text v
unfolding integer_object
text-integer_object true v = refl
text-integer_object false v = from_long_long_lem v

length_pos : {A : Type 0} (xs : List A) → (length xs == 0) ≡ false → xs ≢ []
length_pos [] h e = absurd (false≢true (sym h))
length_pos (x ∷ xs) h e = cc

module _ (strtoll : List ℕ → ℤ × ℕ) (lzf_compress : List ℕ → ℕ → List ℕ)
    (lzf_decompress : List ℕ → ℕ → Option (List ℕ)) where
  -- What loading gives back of a string that was saved.
  abbrev pub Loads : Bool → List ℕ → List ℕ → List ℕ → Type 0
  Loads encode s bs rest =
      (o : Object) × (load_string strtoll lzf_compress lzf_decompress encode (bs ++ rest)
        ≡ some (o, rest))
      × (text o ≡ s)

  Encoded-Loads :
      (encode : Bool) (v : ℤ) (rest : List ℕ)
      → encode_integer v ≢ []
      → Loads encode (number_text v) (encode_integer v) rest
  unfolding load_string
  Encoded-Loads encode v rest h =
      let e = encode_integer-Encoded encode v rest h in
      let small : leb e.enctype 2 ≡ true = ground (arith, e.known) in
      (integer_object encode v, rw (e.head, small, e.value) refl, text-integer_object encode v)

  -- The verbatim form.
  verbatim-Loads :
      (encode : Bool) (s rest : List ℕ)
      → length s < lenerr
      → Loads encode s (save_len (length s) ++ s) rest
  unfolding load_string
  verbatim-Loads encode s rest h =
      let short : (length s == lenerr) ≡ false = ground arith in
      (
        raw s,
        rw
            (
              append_assoc (save_len (length s)) s rest,
              load_len-save_len (length s) (s ++ rest) (omega arith),
              short,
              read-append s rest,
            )
            refl,
        refl,
      )

  unpack_back :
      (out s rest : List ℕ)
      → lzf_decompress out (length s) ≡ some s
      → unpack strtoll lzf_compress lzf_decompress (length out) (length s) (out ++ rest)
        ≡ some (raw s, rest)
  unfolding unpack
  unpack_back out s rest back = rw (read-append out rest, unpack, back) refl

  -- The compressed form, behind its first byte.
  lzf_back :
      (out s rest : List ℕ)
      → length out < lenerr
      → length s < lenerr
      → lzf_decompress out (length s) ≡ some s
      → load_lzf strtoll lzf_compress lzf_decompress
          (save_len (length out) ++ (save_len (length s) ++ (out ++ rest)))
        ≡ some (raw s, rest)
  unfolding load_lzf
  lzf_back out s rest h h' back =
      let short : (length out == lenerr) ≡ false = ground arith in
      let short' : (length s == lenerr) ≡ false = ground arith in
      rw
        (
          load_len-save_len (length out) (save_len (length s) ++ (out ++ rest)) (omega arith),
          load_len-save_len (length s) (out ++ rest) (omega arith),
          short,
          short',
        )
        (unpack_back out s rest back)

  load_string-lzf :
      (encode : Bool) (bs : List ℕ)
      → load_string strtoll lzf_compress lzf_decompress encode ((3 * 64 + 3) ∷ bs)
        ≡ load_lzf strtoll lzf_compress lzf_decompress bs
  unfolding load_string load_len
  load_string-lzf encode bs = refl

  module _ (lzf_fits : (s : List ℕ) (n : ℕ) → length (lzf_compress s n) ≤ n)
      (lzf_inverse : (s : List ℕ) (n : ℕ)
        → lzf_compress s n ≢ []
        → lzf_decompress (lzf_compress s n) (length s) ≡ some s)
      (strtoll_fits : (s : List ℕ) → Fits 8 (strtoll s).0) where
    lzf-Loads :
        (encode : Bool) (s rest : List ℕ)
        → length s < lenerr
        → (length (save_lzf strtoll lzf_compress lzf_decompress s) == 0) ≡ false
        → Loads encode s (save_lzf strtoll lzf_compress lzf_decompress s) rest
    unfolding save_lzf
    lzf-Loads encode s rest h some_bytes = elim (Bool-cases (leb (length s) 4)) [
      | inl tiny ↦ absurd (false≢true (sym (rw tiny at some_bytes)))
      | inr large ↦ elim (Bool-cases (length (lzf_compress s (length s - 4)) == 0)) [
        | inl useless ↦ absurd (false≢true (sym (rw (large, useless) at some_bytes)))
        | inr packed ↦
            let out = lzf_compress s (length s - 4) in
            let fits = lzf_fits s (length s - 4) in
            (
              raw s,
              rw
                  (
                    large,
                    packed,
                    append_assoc (save_len (length out)) (save_len (length s) ++ out) rest,
                    append_assoc (save_len (length s)) out rest,
                  )
                  (load_string-lzf encode _
                    ∙ lzf_back out s rest (omega arith) h
                        (lzf_inverse s (length s - 4) (length_pos out packed))),
              refl,
            )
      ]
    ]

    integer-Loads :
        (encode : Bool) (s rest : List ℕ)
        → (length (try_integer_encoding strtoll lzf_compress lzf_decompress s) == 0) ≡ false
        → Loads encode s (try_integer_encoding strtoll lzf_compress lzf_decompress s) rest
    unfolding try_integer_encoding
    integer-Loads encode s rest some_bytes = elim (Bool-cases (get_or s (strtoll s).1 0 == 0)) [
      | inr more ↦ absurd (false≢true (sym (rw more at some_bytes)))
      | inl whole ↦ elim (Bool-cases (equal_strings (ll2string 32 (strtoll s).0) s)) [
        | inr other ↦ absurd (false≢true (sym (rw (whole, other) at some_bytes)))
        | inl same ↦
            let (o, ran, e) =
              Encoded-Loads encode (strtoll s).0 rest
                (length_pos _ (rw (whole, same) at some_bytes)) in
            let printed =
              sym (ll2string-number_text 32 (strtoll s).0 (strtoll_fits s) (omega arith)) in
            (o, rw (whole, same) ran, e ∙ printed ∙ (equal_strings_iff _ s).0 same)
      ]
    ]

    raw-Loads :
        (compression encode : Bool) (s rest : List ℕ)
        → length s < lenerr
        → Loads encode s (save_raw_string strtoll lzf_compress lzf_decompress compression s) rest
    unfolding save_raw_string
    raw-Loads compression encode s rest h =
        let enc =
          if leb (length s) 11
          then try_integer_encoding strtoll lzf_compress lzf_decompress s
          else [] in
        let packed =
          if compression && ltb 20 (length s)
          then save_lzf strtoll lzf_compress lzf_decompress s
          else [] in
        elim (Bool-cases (length enc == 0)) [
          | inr e ↦ rw e (by_length (Bool-cases (leb (length s) 11)) e)
          | inl e ↦ elim (Bool-cases (length packed == 0)) [
            | inr p ↦ rw (e, p) (by_flag (Bool-cases (compression && ltb 20 (length s))) p)
            | inl p ↦ rw (e, p) (verbatim-Loads encode s rest h)
          ]
        ]
      where
        by_length :
            (leb (length s) 11 ≡ true) ⊎ (leb (length s) 11 ≡ false)
            → (length (
                  if leb (length s) 11
                  then try_integer_encoding strtoll lzf_compress lzf_decompress s
                  else [])
                == 0)
              ≡ false
            → Loads encode s
                (if leb (length s) 11
                  then try_integer_encoding strtoll lzf_compress lzf_decompress s
                  else [])
                rest
        by_length (inl l) e = rw l (integer-Loads encode s rest (rw l at e))
        by_length (inr l) e = absurd (false≢true (sym (rw l at e)))

        by_flag :
            ((compression && ltb 20 (length s)) ≡ true)
              ⊎ ((compression && ltb 20 (length s)) ≡ false)
            → (length (
                  if compression && ltb 20 (length s)
                  then save_lzf strtoll lzf_compress lzf_decompress s
                  else [])
                == 0)
              ≡ false
            → Loads encode s
                (if compression && ltb 20 (length s)
                  then save_lzf strtoll lzf_compress lzf_decompress s
                  else [])
                rest
        by_flag (inl l) e = rw l (lzf-Loads encode s rest h (rw l at e))
        by_flag (inr l) e = absurd (false≢true (sym (rw l at e)))

    long_long-Loads :
        (encode : Bool) (v : ℤ) (rest : List ℕ)
        → Fits 8 v
        → Loads encode (number_text v) (save_long_long strtoll lzf_compress lzf_decompress v) rest
    unfolding save_long_long
    long_long-Loads encode v rest f = elim (Bool-cases (length (encode_integer v) == 0)) [
      | inr e ↦ rw e (Encoded-Loads encode v rest (length_pos _ e))
      | inl e ↦
          let short : length (number_text v) < lenerr = omega (arith, length-number_text v f) in
          rw (e, ll2string-number_text 32 v f (omega arith))
            (verbatim-Loads encode (number_text v) rest short)
    ]

    -- A string object that is saved is loaded again as the same string, with the bytes behind it left,
    -- in each of the three encodings: as a small integer, compressed, or verbatim. The string is
    -- shorter than the error length; the compressor's output fits the room that it is given, and
    -- decompresses to the string; `strtoll` returns a 64-bit number.
    pub load_string-save_string :
        (compression encode : Bool) (o : Object) (rest : List ℕ)
        → IsStorable o
        → Loads encode (text o) (save_string strtoll lzf_compress lzf_decompress compression o) rest
    unfolding save_string
    load_string-save_string compression encode (raw s) rest h =
        raw-Loads compression encode s rest h
    load_string-save_string compression encode (int v) rest h = long_long-Loads encode v rest h
