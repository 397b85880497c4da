-- ===== src/Strings/Setting.antt =====
-- SET with its options, SETNX, SETEX, PSETEX, MSET and MSETNX of redis-stable/src/t_string.c.
use mmog.Common.{
  ℕ, ◌+◌, ◌/◌, ◌%◌, ◌&&◌, ◌||◌, not, Bool, true, false, Option, none, some, List, [], ◌∷◌, length,
  get_or, ◌==◌, if◌then◌else◌, ℤ, pos, leb_ℤ,
}
use mmog.Common.Bytes.{Bytes}
use mmog.Rdb.{Object, raw}
use mmog.Objects.{add64, mul64, try_object_encoding, Strtoll, get_long_long}
use mmog.Keyspace.{
  Value, string, M, ◌>>=◌, ◌>>◌, pure, update, is_some, add_dirty, set_expire, lookup_key_write,
  set_key,
}
use mmog.Keyspace.Commands.{
  Reply, ok, nil, not_integer, invalid_expire, wrong_arguments, syntax, one, zero_reply,
}

-- The conditions NX and XX of SET.
pub record Flags : Type 0 where
  pub nx : Bool
  pub xx : Bool

abbrev pub no_flags : Flags
no_flags = record { nx = false; xx = false }

-- The expire time that a command is given, and its unit: seconds or milliseconds.
pub record Expire : Type 0 where
  pub param : Bytes
  pub seconds : Bool

-- A lookup that is made only if the flag is set.
unfoldable pub lookup_if : Bool → ℕ → Bytes → M (Option Value)
lookup_if true d key = lookup_key_write d key
lookup_if false d key = pure none

-- The end of `setGenericCommand`: the key is set, and then its time, if it has one.
unfoldable pub set_with_time : ℕ → Bytes → Object → Option ℤ → Reply → M Reply
set_with_time d key val time ok_reply = do
  set_key d key (string val)
  update (add_dirty 1)
  (elim time [ none ↦ pure tt | some ms ↦ λ s. set_expire d key (add64 s.mstime ms) s ])
  pure ok_reply

-- The tests of NX and XX.
unfoldable pub set_if : Flags → ℕ → Bytes → Object → Option ℤ → Reply → Reply → M Reply
set_if flags d key val time ok_reply abort_reply = do
  old ← lookup_if flags.nx d key
  (if flags.nx && is_some old
      then pure abort_reply
      else lookup_if flags.xx d key >>= λ old'.
          if flags.xx && not (is_some old')
          then pure abort_reply
          else set_with_time d key val time ok_reply)

-- The comparison of an option of SET: two letters in either case, then the end of the string.
unfoldable pub is_option : ℕ → ℕ → Bytes → Bool
is_option low up a =
    (get_or a 0 0 == low || get_or a 0 0 == up)
    && ((get_or a 1 0 == b'x' || get_or a 1 0 == b'X') && get_or a 2 0 == 0)

-- The loop of `setCommand` over the options: none for a syntax error.
unfoldable pub set_options : List Bytes → Flags → Option Expire → Option (Flags × Option Expire)
set_options [] flags expire = some (flags, expire)
set_options (a ∷ []) flags expire =
    if is_option b'n' b'N' a
    then some (record flags { nx = true }, expire)
    else if is_option b'x' b'X' a
    then some (record flags { xx = true }, expire)
    else none
set_options (a ∷ next ∷ options) flags expire = elim (is_option b'n' b'N' a) [
  | true ↦ set_options (next ∷ options) (record flags { nx = true }) expire
  | false ↦ elim (is_option b'x' b'X' a) [
    | true ↦ set_options (next ∷ options) (record flags { xx = true }) expire
    | false ↦ elim (is_option b'e' b'E' a) [
      | true ↦ set_options options flags (some (record { param = next; seconds = true }))
      | false ↦ elim (is_option b'p' b'P' a) [
        | true ↦ set_options options flags (some (record { param = next; seconds = false }))
        | false ↦ none
      ]
    ]
  ]
]

-- The loops of `msetGenericCommand` over the keys and values.
unfoldable pub busy_keys : ℕ → List Bytes → ℕ → M ℕ
busy_keys d [] n = pure n
busy_keys d (key ∷ []) n = pure n
busy_keys d (key ∷ val ∷ args) n = do
  o ← lookup_key_write d key
  busy_keys d args (if is_some o then n + 1 else n)

unfoldable pub set_keys : ℕ → List Bytes → M Unit
set_keys d [] = pure tt
set_keys d (key ∷ []) = pure tt
set_keys d (key ∷ val ∷ args) = do
  set_key d key (string (try_object_encoding (raw val)))
  set_keys d args

-- The end of `msetGenericCommand`.
unfoldable pub set_all : ℕ → List Bytes → Reply → M Reply
set_all d args reply = do set_keys d args; update (add_dirty (length args / 2)); pure reply

-- `msetGenericCommand`
unfoldable pub mset_generic : Bool → ℕ → List Bytes → M Reply
mset_generic nx d args =
    if length args % 2 == 1
    then pure wrong_arguments
    else if nx
    then (busy_keys d args 0 >>= λ busy. if busy == 0 then set_all d args one else pure zero_reply)
    else set_all d args ok

module _ (strtoll : Bytes → Strtoll) where
  -- `setGenericCommand`
  unfoldable pub set_generic : Flags → ℕ → Bytes → Object → Option Expire → Reply → Reply → M Reply
  set_generic flags d key val none ok_reply abort_reply =
      set_if flags d key val none ok_reply abort_reply
  set_generic flags d key val (some e) ok_reply abort_reply =
      elim (get_long_long strtoll (raw e.param)) [
        | none ↦ pure not_integer
        | some t ↦
            if leb_ℤ t (pos 0)
            then pure invalid_expire
            else set_if flags d key val (some (if e.seconds then mul64 t (pos 1000) else t))
                ok_reply abort_reply
      ]

  -- `setnxCommand`
  unfoldable pub setnx_command : ℕ → Bytes → Bytes → M Reply
  setnx_command d key val =
      set_generic (record { nx = true; xx = false }) d key (try_object_encoding (raw val)) none one
        zero_reply

  -- `setexCommand` and `psetexCommand`
  unfoldable pub setex_command : Bool → ℕ → Bytes → Bytes → Bytes → M Reply
  setex_command seconds d key time val =
      set_generic no_flags d key (try_object_encoding (raw val))
        (some (record { param = time; seconds = seconds })) ok nil

  -- `setCommand`
  unfoldable pub set_command : ℕ → Bytes → Bytes → List Bytes → M Reply
  set_command d key val options = elim (set_options options no_flags none) [
    | none ↦ pure syntax
    | some p ↦ set_generic p.0 d key (try_object_encoding (raw val)) p.1 ok nil
  ]
