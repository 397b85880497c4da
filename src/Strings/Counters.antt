-- ===== src/Strings/Counters.antt =====
-- INCR, DECR, INCRBY and DECRBY of redis-stable/src/t_string.c.
pub mod Sums
use mmog.Common.{
  ℕ, zero, suc, ◌+◌, ◌-◌, ◌*◌, ◌/◌, ◌%◌, ◌^◌, ◌&&◌, ◌||◌, not, Bool, true, false, Option, none,
  some, List, [], ◌∷◌, ◌++◌, length, take, drop, replicate, get_or, ltb, leb, ◌==◌, if◌then◌else◌,
  ℤ, pos, negsuc, ltb_ℤ, leb_ℤ, eqb_ℤ,
}
use mmog.Common.Bytes.{Bytes}
use mmog.Memory.Signed.{to_word, of_word}
use mmog.Rdb.{Object, raw, int}
use mmog.Objects.{
  add64, mul64, neg64, decoded, string_object_len, try_object_encoding, Strtoll, get_long_long,
}
use mmog.Keyspace.{
  Kind, Value, string, aggregate, Db, Server, M, ◌>>=◌, ◌>>◌, pure, update, fail, is_some,
  signal_modified_key, add_dirty, db_add, db_overwrite, set_expire, lookup_key_read,
  lookup_key_write, set_key,
}
use mmog.Keyspace.Commands.{
  Reply, ok, nil, number, bulk, bulks, out_of_range, not_integer, invalid_expire, wrong_type,
  too_long, overflow, wrong_arguments, syntax, one, zero_reply,
}
use mmog.Strings.{Found, missing, found, other, check_type, is_too_long, end_of, max_size}

-- The number that a key holds.
pub data Number : Type 0 where
  reads : ℤ → Number
  wrong : Number
  unreadable : Number

unfoldable pub number_in : (Bytes → Strtoll) → Found → Number
number_in strtoll other = wrong
number_in strtoll missing = reads (pos 0)
number_in strtoll (found o) = elim (get_long_long strtoll o) [
  | none ↦ unreadable
  | some v ↦ reads v
]

-- The test before the sum: LLONG_MIN and LLONG_MAX less the old value.
unfoldable pub would_overflow : ℤ → ℤ → Bool
would_overflow (negsuc a) (negsuc b) = ltb (2 ^ 63 - suc b) (suc a)
would_overflow (pos a) (pos b) = ltb 0 a && (ltb 0 b && ltb (2 ^ 63 - 1 - b) a)
would_overflow incr old = false

-- The end of `incrDecrCommand`.
unfoldable pub store_number : ℕ → Bytes → Bool → ℤ → M Reply
store_number d key old value = do
  (if old then db_overwrite d key (string (int value)) else db_add d key (string (int value)))
  update (λ s. add_dirty 1 (signal_modified_key d key s))
  pure (number value)

module _ (strtoll : Bytes → Strtoll) where
  -- `incrDecrCommand`
  unfoldable pub incr_decr : ℕ → Bytes → ℤ → M Reply
  incr_decr d key incr = do
    o ← lookup_key_write d key
    (elim (number_in strtoll (check_type o)) [
      | wrong ↦ pure wrong_type
      | unreadable ↦ pure not_integer
      | reads oldvalue ↦
          if would_overflow incr oldvalue
          then pure overflow
          else store_number d key (is_some o) (add64 oldvalue incr)
    ])

  -- `incrbyCommand` and `decrbyCommand`
  unfoldable pub incrby_command : ℕ → Bytes → Bytes → M Reply
  incrby_command d key param = elim (get_long_long strtoll (raw param)) [
    | none ↦ pure not_integer
    | some incr ↦ incr_decr d key incr
  ]

  unfoldable pub decrby_command : ℕ → Bytes → Bytes → M Reply
  decrby_command d key param = elim (get_long_long strtoll (raw param)) [
    | none ↦ pure not_integer
    | some incr ↦ incr_decr d key (neg64 incr)
  ]
