-- ===== src/Rdb.antt =====
-- The strings and lengths of a dump file, redis-stable/src/rdb.c. A stream that is written is the list
-- of the bytes appended; one that is read is the list of the bytes left.
pub mod Lengths
pub mod Integers
pub mod Strings
mod Tests
use mmog.Common.{
  ℕ, zero, suc, ◌+◌, ◌-◌, ◌*◌, ◌/◌, ◌%◌, ◌^◌, ◌&&◌, ◌||◌, not, Bool, true, false, Option, none,
  some, List, [], ◌∷◌, ◌++◌, length, take, drop, get_or, ltb, leb, ◌==◌, if◌then◌else◌, ℤ, pos,
  negsuc, leb_ℤ,
}
use mmog.Common.Bytes.{equal_strings}
use mmog.Memory.Signed.{to_word, of_word}
use mmog.Numbers.{ll2string}
use mmog.Sds.Text.{from_long_long}

-- REDIS_RDB_LENERR, the length that no string can have.
abbrev pub lenerr : ℕ
lenerr = 2 ^ 32 - 1

-- `rioRead` of `n` bytes.
unfoldable pub read : ℕ → List ℕ → Option (List ℕ × List ℕ)
read n bs = if ltb (length bs) n then none else some (take n bs, drop n bs)

-- `rdbSaveLen`. The two bits of the type are above the bits of the length, so "or" is a sum; a 32-bit
-- length is in network order.
unfoldable pub save_len : ℕ → List ℕ
save_len len =
    if ltb len (2 ^ 6)
    then len % 256 ∷ []
    else if ltb len (2 ^ 14)
    then (len / 256 % 256 + 1 * 64) ∷ len % 256 ∷ []
    else (2 * 64) ∷ len / 2 ^ 24 % 256 ∷ len / 2 ^ 16 % 256 ∷ len / 2 ^ 8 % 256 ∷ len % 256 ∷ []

-- The four bytes of a 32-bit length.
unfoldable pub load_wide : List ℕ → ℕ × Bool × List ℕ
load_wide (a ∷ b ∷ c ∷ d ∷ bs) = (a * 2 ^ 24 + b * 2 ^ 16 + c * 2 ^ 8 + d, false, bs)
load_wide bs = (lenerr, false, bs)

-- `rdbLoadLen`: the length or the type of an encoding, `*isencoded`, and the bytes left.
unfoldable pub load_len : List ℕ → ℕ × Bool × List ℕ
load_len [] = (lenerr, false, [])
load_len (c ∷ bs) =
    let type = c / 64 % 4 in
    if type == 3
    then (c % 64, true, bs)
    else if type == 0
    then (c % 64, false, bs)
    else if type == 1
    then elim bs [ [] ↦ (lenerr, false, []) | d ∷ ds ↦ (c % 64 * 256 + d, false, ds) ]
    else load_wide bs

-- `rdbEncodeInteger`: the bytes put into `enc`, none for the return value 0.
unfoldable pub encode_integer : ℤ → List ℕ
encode_integer value =
    let w = to_word 8 value in
    if leb_ℤ (negsuc (2 ^ 7 - 1)) value && leb_ℤ value (pos (2 ^ 7 - 1))
    then (3 * 64 + 0) ∷ w % 256 ∷ []
    else if leb_ℤ (negsuc (2 ^ 15 - 1)) value && leb_ℤ value (pos (2 ^ 15 - 1))
    then (3 * 64 + 1) ∷ w % 256 ∷ w / 2 ^ 8 % 256 ∷ []
    else if leb_ℤ (negsuc (2 ^ 31 - 1)) value && leb_ℤ value (pos (2 ^ 31 - 1))
    then (3 * 64 + 2) ∷ w % 256 ∷ w / 2 ^ 8 % 256 ∷ w / 2 ^ 16 % 256 ∷ w / 2 ^ 24 % 256 ∷ []
    else []

-- A string object: raw bytes, or an integer that stands for its decimal text.
pub data Object : Type 0 where
  raw : List ℕ → Object
  int : ℤ → Object

-- The object made from an integer, by `createStringObjectFromLongLong` or `sdsfromlonglong`.
unfoldable pub integer_object : Bool → ℤ → Object
integer_object true v = int v
integer_object false v = raw (from_long_long v)

-- The little-endian word of 1, 2 or 4 bytes, and the bytes left.
unfoldable pub load_word : ℕ → List ℕ → Option (ℕ × List ℕ)
load_word zero bs = some (0, bs)
load_word (suc k) [] = none
load_word (suc k) (a ∷ bs) = elim (load_word k bs) [
  | none ↦ none
  | some (w, r) ↦ some (a + 256 * w, r)
]

-- `rdbLoadIntegerObject`: `none` for NULL and for the panic.
unfoldable pub load_integer : ℕ → Bool → List ℕ → Option (Object × List ℕ)
load_integer enctype encode bs =
    let bytes = if enctype == 0 then 1 else if enctype == 1 then 2 else 4 in
    if ltb 2 enctype then none else elim (load_word bytes bs) [
      | none ↦ none
      | some (w, r) ↦ some (integer_object encode (of_word bytes w), r)
    ]

-- `strtoll` in base 10: the value, and the index of the byte behind the number. `lzf_compress` is
-- given the room for its output and returns the bytes written, none for the return value 0;
-- `lzf_decompress` is given the length that it has to reach, and returns none for 0.
module _ (strtoll : List ℕ → ℤ × ℕ) (lzf_compress : List ℕ → ℕ → List ℕ)
    (lzf_decompress : List ℕ → ℕ → Option (List ℕ)) where
  -- `rdbTryIntegerEncoding`. The string ends with a nul byte.
  unfoldable pub try_integer_encoding : List ℕ → List ℕ
  try_integer_encoding s =
      let (value, endptr) = strtoll s in
      if not (get_or s endptr 0 == 0)
      then []
      else if equal_strings (ll2string 32 value) s
      then encode_integer value
      else []

  -- `rdbSaveLzfStringObject`: nothing for the return value 0.
  unfoldable pub save_lzf : List ℕ → List ℕ
  save_lzf s =
      if leb (length s) 4
      then []
      else let out = lzf_compress s (length s - 4) in
        if length out == 0
        then []
        else (3 * 64 + 3) ∷ save_len (length out) ++ (save_len (length s) ++ out)

  -- `rdbSaveRawString`, given `server.rdb_compression`.
  unfoldable pub save_raw_string : Bool → List ℕ → List ℕ
  save_raw_string compression s =
      let enc = if leb (length s) 11 then try_integer_encoding s else [] in
      let packed = if compression && ltb 20 (length s) then save_lzf s else [] in
      if not (length enc == 0)
      then enc
      else if not (length packed == 0)
      then packed
      else save_len (length s) ++ s

  -- `rdbSaveLongLongAsStringObject`
  unfoldable pub save_long_long : ℤ → List ℕ
  save_long_long value =
      let enc = encode_integer value in
      let text = ll2string 32 value in
      if not (length enc == 0) then enc else save_len (length text) ++ text

  -- `rdbSaveStringObject`
  unfoldable pub save_string : Bool → Object → List ℕ
  save_string compression (int v) = save_long_long v
  save_string compression (raw s) = save_raw_string compression s

  -- `rdbLoadLzfStringObject`, behind the two lengths.
  unfoldable pub unpack : ℕ → ℕ → List ℕ → Option (Object × List ℕ)
  unpack clen len bs = elim (read clen bs) [
    | none ↦ none
    | some (c, r) ↦ elim (lzf_decompress c len) [ none ↦ none | some val ↦ some (raw val, r) ]
  ]

  unfoldable pub load_lzf : List ℕ → Option (Object × List ℕ)
  load_lzf bs =
      let (clen, _, bs₁) = load_len bs in
      let (len, _, bs₂) = load_len bs₁ in
      if clen == lenerr || len == lenerr then none else unpack clen len bs₂

  -- `rdbGenericLoadStringObject`; `none` for NULL and for the panic.
  unfoldable pub load_string : Bool → List ℕ → Option (Object × List ℕ)
  load_string encode bs =
      let (len, isencoded, r) = load_len bs in
      if isencoded
      then if leb len 2 then load_integer len encode r else if len == 3 then load_lzf r else none
      else if len == lenerr
      then none
      else elim (read len r) [ none ↦ none | some (s, r') ↦ some (raw s, r') ]
