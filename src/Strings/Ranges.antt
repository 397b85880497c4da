-- ===== src/Strings/Ranges.antt =====
-- SETRANGE and GETRANGE of redis-stable/src/t_string.c.
pub mod Slices
pub mod Patches
pub mod Setrange
use mmog.Common.{
  ℕ, zero, suc, ◌+◌, ◌-◌, ◌*◌, ◌/◌, ◌%◌, ◌^◌, ◌&&◌, ◌||◌, not, Bool, true, false, Option, none,
  some, List, [], ◌∷◌, ◌++◌, length, take, drop, replicate, get_or, ltb, leb, ◌==◌, if◌then◌else◌,
  ℤ, pos, negsuc, ltb_ℤ, leb_ℤ, eqb_ℤ,
}
use mmog.Common.Bytes.{Bytes}
use mmog.Memory.Signed.{to_word, of_word}
use mmog.Rdb.{Object, raw, int}
use mmog.Objects.{
  add64, mul64, neg64, decoded, string_object_len, try_object_encoding, Strtoll, get_long_long,
}
use mmog.Keyspace.{
  Kind, Value, string, aggregate, Db, Server, M, ◌>>=◌, ◌>>◌, pure, update, fail, is_some,
  signal_modified_key, add_dirty, db_add, db_overwrite, set_expire, lookup_key_read,
  lookup_key_write, set_key,
}
use mmog.Keyspace.Commands.{
  Reply, ok, nil, number, bulk, bulks, out_of_range, not_integer, invalid_expire, wrong_type,
  too_long, overflow, wrong_arguments, syntax, one, zero_reply,
}
use mmog.Strings.{Found, missing, found, other, check_type, is_too_long, end_of, max_size}

-- `sdsgrowzero` and `memcpy`: the string with `value` at the offset.
unfoldable pub patch : Bytes → ℕ → Bytes → Bytes
patch old offset value =
    take offset (old ++ replicate (offset - length old) 0)
    ++ (value ++ drop (offset + length value) old)

-- The end of `setrangeCommand`, where the object is raw. No allocator gives 2 ^ 63 bytes: `zrealloc`
-- aborts the server then.
unfoldable pub write_range : ℕ → Bytes → Bytes → ℕ → Bytes → M Reply
write_range d key old offset value = if leb (2 ^ 63) (offset + length value) then fail else do
  db_overwrite d key (string (raw (patch old offset value)))
  update (λ s. add_dirty 1 (signal_modified_key d key s))
  pure (number (pos (length (patch old offset value))))

-- An index of `getrangeCommand` that may count from the end, clamped below.
unfoldable pub from_end : ℕ → ℤ → ℕ
from_end strlen (pos n) = n
from_end strlen (negsuc n) = strlen - suc n

-- The index behind the last byte: `(unsigned)end` has 32 bits.
unfoldable pub stop_of : ℕ → ℕ → ℕ
stop_of strlen end = if leb strlen (end % 2 ^ 32) then strlen else end + 1

-- The end of `getrangeCommand`: a failure where bytes behind the string would be read.
unfoldable pub reply_range : Bytes → ℤ → ℤ → M Reply
reply_range str start end =
    let first = from_end (length str) start in
    let stop = stop_of (length str) (from_end (length str) end) in
    if leb stop first
    then pure (bulk [])
    else if ltb (length str) stop
    then fail
    else pure (bulk (take (stop - first) (drop first str)))

module _ (strtoll : Bytes → Strtoll) where
  -- `setrangeCommand`
  unfoldable pub setrange_command : ℕ → Bytes → Bytes → Bytes → M Reply
  setrange_command d key param value = elim (get_long_long strtoll (raw param)) [
    | none ↦ pure not_integer
    | some (negsuc n) ↦ pure out_of_range
    | some (pos offset) ↦ do
      o ← lookup_key_write d key
      (elim (check_type o) [
        | other ↦ pure wrong_type
        | missing ↦
            if length value == 0
            then pure zero_reply
            else if is_too_long (end_of (pos offset) (length value))
            then pure too_long
            else db_add d key (string (raw [])) >> write_range d key [] offset value
        | found x ↦
            if length value == 0
            then pure (number (pos (string_object_len x)))
            else if is_too_long (end_of (pos offset) (length value))
            then pure too_long
            else write_range d key (decoded x) offset value
      ])
  ]

  -- `getrangeCommand`
  unfoldable pub getrange_command : ℕ → Bytes → Bytes → Bytes → M Reply
  getrange_command d key first last = elim (get_long_long strtoll (raw first)) [
    | none ↦ pure not_integer
    | some start ↦ elim (get_long_long strtoll (raw last)) [
      | none ↦ pure not_integer
      | some end ↦ do
        o ← lookup_key_read d key
        (elim (check_type o) [
          | missing ↦ pure (bulk [])
          | other ↦ pure wrong_type
          | found x ↦ reply_range (decoded x) start end
        ])
    ]
  ]
