-- ===== src/Strings.antt =====
-- redis-stable/src/t_string.c: the commands on strings, but for INCRBYFLOAT. A handler is given the
-- database that the client selected and its arguments, and returns the reply.
pub mod Setting
pub mod Stored
pub mod Conditions
pub mod Counters
pub mod Ranges
mod Tests
use mmog.Common.{
  ℕ, zero, suc, ◌+◌, ◌-◌, ◌*◌, ◌/◌, ◌%◌, ◌^◌, ◌&&◌, ◌||◌, not, Bool, true, false, Option, none,
  some, List, [], ◌∷◌, ◌++◌, length, take, drop, replicate, get_or, ltb, leb, ◌==◌, if◌then◌else◌,
  ℤ, pos, negsuc, ltb_ℤ, leb_ℤ, eqb_ℤ,
}
use mmog.Common.Bytes.{Bytes}
use mmog.Memory.Signed.{to_word, of_word}
use mmog.Rdb.{Object, raw, int}
use mmog.Objects.{
  add64, mul64, neg64, decoded, string_object_len, try_object_encoding, Strtoll, get_long_long,
}
use mmog.Keyspace.{
  Kind, Value, string, aggregate, Db, Server, M, ◌>>=◌, ◌>>◌, pure, update, fail, is_some,
  signal_modified_key, add_dirty, db_add, db_overwrite, set_expire, lookup_key_read,
  lookup_key_write, set_key,
}
use mmog.Keyspace.Commands.{
  Reply, ok, nil, number, bulk, bulks, out_of_range, not_integer, invalid_expire, wrong_type,
  too_long, overflow, wrong_arguments, syntax, one, zero_reply,
}

-- 512 MB
abbrev pub max_size : ℕ
max_size = 512 * 1024 * 1024

-- `checkStringLength`, for the size as the `long long` that the callers' sum is converted to.
unfoldable pub is_too_long : ℤ → Bool
is_too_long size = ltb_ℤ (pos max_size) size

-- The value of a length that is added to an offset: a sum of two `size_t`, read as `long long`.
unfoldable pub end_of : ℤ → ℕ → ℤ
end_of offset len = of_word 8 ((to_word 8 offset + len) % 2 ^ 64)

-- The lookups of a string, for reading and for writing: none for a missing key, and the client is told
-- where the value is no string.
pub data Found : Type 0 where
  missing : Found
  found : Object → Found
  other : Found

unfoldable pub check_type : Option Value → Found
check_type none = missing
check_type (some (string o)) = found o
check_type (some (aggregate k n)) = other

-- `getGenericCommand`
unfoldable pub get_reply : Option Value → Reply
get_reply none = nil
get_reply (some (string o)) = bulk (decoded o)
get_reply (some (aggregate k n)) = wrong_type

unfoldable pub get_command : ℕ → Bytes → M Reply
get_command d key = do o ← lookup_key_read d key; pure (get_reply o)

-- `strlenCommand`
unfoldable pub strlen_reply : Found → Reply
strlen_reply missing = zero_reply
strlen_reply other = wrong_type
strlen_reply (found x) = number (pos (string_object_len x))

unfoldable pub strlen_command : ℕ → Bytes → M Reply
strlen_command d key = do o ← lookup_key_read d key; pure (strlen_reply (check_type o))

-- `appendCommand`
unfoldable pub append_command : ℕ → Bytes → Bytes → M Reply
append_command d key value = do
  o ← lookup_key_write d key
  (elim (check_type o) [
    | other ↦ pure wrong_type
    | missing ↦
        db_add d key (string (try_object_encoding (raw value)))
        >> (update (λ s. add_dirty 1 (signal_modified_key d key s))
            >> pure (number (pos (string_object_len (try_object_encoding (raw value))))))
    | found x ↦
        if is_too_long (end_of (pos (string_object_len x)) (length value))
        then pure too_long
        else db_overwrite d key (string (raw (decoded x ++ value)))
          >> (update (λ s. add_dirty 1 (signal_modified_key d key s))
              >> pure (number (pos (length (decoded x ++ value)))))
  ])

-- `getsetCommand`
unfoldable pub getset_command : ℕ → Bytes → Bytes → M Reply
getset_command d key val = do
  o ← lookup_key_read d key
  (elim (check_type o) [
    | other ↦ pure wrong_type
    | missing ↦
        set_key d key (string (try_object_encoding (raw val))) >> (update (add_dirty 1) >> pure nil)
    | found x ↦
        set_key d key (string (try_object_encoding (raw val)))
        >> (update (add_dirty 1) >> pure (bulk (decoded x)))
  ])

-- `mgetCommand`
unfoldable pub mget_loop : ℕ → List Bytes → M (List (Option Bytes))
mget_loop d [] = pure []
mget_loop d (key ∷ keys) = do
  o ← lookup_key_read d key
  rest ← mget_loop d keys
  pure (elim (check_type o) [ missing ↦ none | other ↦ none | found x ↦ some (decoded x) ] ∷ rest)

unfoldable pub mget_command : ℕ → List Bytes → M Reply
mget_command d keys = do values ← mget_loop d keys; pure (bulks values)
