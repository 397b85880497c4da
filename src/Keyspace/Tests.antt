-- ===== src/Keyspace/Tests.antt =====
-- Lookups, renaming and times on the small server.
use mmog.Common.{refl, true, false, [], ◌∷◌, pos}
use mmog.Common.Bytes.{equal_strings}
use mmog.Numbers.{string2ll, parse_unsigned, parse_digits, in_range}
use mmog.Rdb.{raw, int}
use mmog.Objects.{add64, mul64, get_long_long, isspace}
use mmog.Keyspace.{string, lookup_key_read}
use mmog.Keyspace.Map.{lookup}
use mmog.Keyspace.Samples.{k, z, server_at, server-IsValid, strtoll, equal_strings-differ}
use mmog.Keyspace.Commands.{ok, rename_generic, expire_generic}
use mmog.Keyspace.Rename.{Renamed, rename_generic-Renamed}
use mmog.Keyspace.Times.{LookedUp, lookup_key_read-LookedUp, Expires, expire_generic-Expires}

-- The key is past its time.
lookup_key_read-LookedUp_example :
    LookedUp 0 k (server_at (pos 1000)) (lookup_key_read 0 k (server_at (pos 1000)))
lookup_key_read-LookedUp_example =
    lookup_key_read-LookedUp 0 k (server_at (pos 1000)) (server-IsValid (pos 1000))

-- The key takes its time along, over a text that is there.
rename_generic-Renamed_example :
    Renamed 0 k z equal_strings-differ
      (string (int (pos 5)))
      ok
      (server_at (pos 100))
      (rename_generic false 0 k z (server_at (pos 100)))
unfolding lookup equal_strings
rename_generic-Renamed_example =
    rename_generic-Renamed 0 k z equal_strings-differ false (string (int (pos 5)))
      (server_at (pos 100)) (server-IsValid (pos 100)) refl refl

-- EXPIRE with 7 seconds.
expire_generic-Expires_example :
    Expires 0 z
      (add64 (mul64 (pos 7) (pos 1000)) (pos 100))
      (string (raw (b'a' ∷ b'b' ∷ b'c' ∷ [])))
      (server_at (pos 100))
      (expire_generic strtoll 0 z (b'7' ∷ []) (pos 100) true (server_at (pos 100)))
unfolding lookup equal_strings get_long_long isspace string2ll parse_unsigned parse_digits in_range
expire_generic-Expires_example =
    expire_generic-Expires 0 z strtoll (b'7' ∷ []) (pos 7) (pos 100) true
      (string (raw (b'a' ∷ b'b' ∷ b'c' ∷ []))) (server_at (pos 100)) (server-IsValid (pos 100)) refl
      refl
