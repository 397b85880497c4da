-- ===== src/Objects.antt =====
-- String objects of redis-stable/src/object.c: raw bytes, or a number that stands for its text. An
-- object is its value: no other object shares it.
use mmog.Common.{
  ℕ, ◌+◌, ◌-◌, ◌*◌, ◌%◌, ◌^◌, ◌&&◌, ◌||◌, not, Bool, Option, none, some, length, get_or, leb, ◌==◌,
  if◌then◌else◌, ℤ,
}
use mmog.Common.Bytes.{Bytes}
use mmog.Memory.Signed.{to_word, of_word}
use mmog.Numbers.{string2l, ll2string}
use mmog.Rdb.{Object, raw, int}

-- Sums, products and negation of `long long`, which wrap around.
unfoldable pub add64 : ℤ → ℤ → ℤ
add64 a b = of_word 8 ((to_word 8 a + to_word 8 b) % 2 ^ 64)

unfoldable pub mul64 : ℤ → ℤ → ℤ
mul64 a b = of_word 8 (to_word 8 a * to_word 8 b % 2 ^ 64)

unfoldable pub neg64 : ℤ → ℤ
neg64 a = of_word 8 ((2 ^ 64 - to_word 8 a) % 2 ^ 64)

-- `isspace` in the C locale.
unfoldable pub isspace : ℕ → Bool
isspace c = c == 32 || (leb 9 c && leb c 13)

-- `getDecodedObject`
unfoldable pub decoded : Object → Bytes
decoded (raw s) = s
decoded (int v) = ll2string 32 v

-- `stringObjectLen`
unfoldable pub string_object_len : Object → ℕ
string_object_len (raw s) = length s
string_object_len (int v) = length (ll2string 32 v)

-- `tryObjectEncoding`
unfoldable pub try_object_encoding : Object → Object
try_object_encoding (int v) = int v
try_object_encoding (raw s) = elim (string2l s) [ none ↦ raw s | some v ↦ int v ]

-- What `strtoll` in base 10 makes of a string: the value, the index of the byte behind the number, and
-- whether it sets ERANGE.
pub record Strtoll : Type 0 where
  pub value : ℤ
  pub endptr : ℕ
  pub erange : Bool

module _ (strtoll : Bytes → Strtoll) where
  -- `getLongLongFromObject`: none for REDIS_ERR.
  unfoldable pub get_long_long : Object → Option ℤ
  get_long_long (int v) = some v
  get_long_long (raw s) =
      let r = strtoll s in
      if isspace (get_or s 0 0) || (not (get_or s r.endptr 0 == 0) || r.erange)
      then none
      else some r.value
