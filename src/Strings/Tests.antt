-- ===== src/Strings/Tests.antt =====
-- Strings on the small server.
use mmog.Common.{
  inl, ◌^◌, ◌≡◌, ◌≢◌, refl, arith, true, false, none, some, [], ◌∷◌, pos, negsuc, ◌-◌,
}
use mmog.Common.Bytes.{equal_strings}
use mmog.Numbers.{string2ll, parse_unsigned, parse_digits, in_range}
use mmog.Rdb.{Object, raw, int}
use mmog.Objects.{decoded, get_long_long, isspace, try_object_encoding}
use mmog.Keyspace.{Server, string, count_access}
use mmog.Keyspace.Map.{lookup}
use mmog.Keyspace.Expiry.{IsValid, swept}
use mmog.Keyspace.Entries.{Changes}
use mmog.Keyspace.Samples.{k, z, missing_key, server_at, server-IsValid, strtoll}
use mmog.Common.Bytes.{Bytes}
use mmog.Keyspace.Commands.{ok, nil, bulk}
use mmog.Strings.{check_type, found, other, get_command}
use mmog.Strings.Setting.{set_if, set_command}
use mmog.Strings.Stored.{Stored}
use mmog.Strings.Conditions.{set_if_lem, get_command-set_command}
use mmog.Strings.Counters.{number_in, incr_decr, decrby_command}
use mmog.Strings.Counters.Sums.{Counted, incr_decr_lem, decrby_command-Counted}
use mmog.Strings.Ranges.{getrange_command, setrange_command, from_end}
use mmog.Strings.Ranges.Slices.{IsSlice, getrange_command_lem, getrange_command-overreads}
use mmog.Strings.Ranges.Setrange.{Patched, setrange_command_lem, setrange_command-aborts}

abbrev abc : Bytes
abc = b'a' ∷ b'b' ∷ b'c' ∷ []

-- -9223372036854775808
abbrev least : Bytes
least =
    b'-' ∷ b'9' ∷ b'2' ∷ b'2' ∷ b'3' ∷ b'3' ∷ b'7' ∷ b'2' ∷ b'0' ∷ b'3' ∷ b'6' ∷ b'8' ∷ b'5' ∷ b'4'
    ∷ b'7' ∷ b'7' ∷ b'5' ∷ b'8' ∷ b'0' ∷ b'8' ∷ []

-- 4294967296
abbrev far : Bytes
far = b'4' ∷ b'2' ∷ b'9' ∷ b'4' ∷ b'9' ∷ b'6' ∷ b'7' ∷ b'2' ∷ b'9' ∷ b'6' ∷ []

-- 9223372036854775807
abbrev farthest : Bytes
farthest =
    b'9' ∷ b'2' ∷ b'2' ∷ b'3' ∷ b'3' ∷ b'7' ∷ b'2' ∷ b'0' ∷ b'3' ∷ b'6' ∷ b'8' ∷ b'5' ∷ b'4' ∷ b'7'
    ∷ b'7' ∷ b'5' ∷ b'8' ∷ b'0' ∷ b'7' ∷ []

found≢other : (x : Object) → found x ≢ other
found≢other x e = absurd (cc e)

-- SET z 1 XX, which finds the key.
set_if_lem_example :
    Stored 0 z (int (pos 1)) none ok (server_at (pos 100)) (
      set_if (record { nx = false; xx = true }) 0 z (int (pos 1)) none ok nil (server_at (pos 100)))
unfolding lookup equal_strings
set_if_lem_example =
    set_if_lem 0 z (int (pos 1)) none ok nil (server_at (pos 100))
      (record { nx = false; xx = true }) (server-IsValid (pos 100))

get_command-set_command_example :
    (t : Server) × (set_command strtoll 0 z (b'1' ∷ []) [] (server_at (pos 100)) ≡ some (ok, t))
    × IsValid t
    × Changes
        (server_at (pos 100))
        t
        0
        z
        (some (string (try_object_encoding (raw (b'1' ∷ [])))), none)
    × ((u : Server) × (get_command 0 z t ≡ some (bulk (b'1' ∷ []), u)))
get_command-set_command_example =
    get_command-set_command strtoll 0 z (b'1' ∷ []) (server_at (pos 100)) (server-IsValid (pos 100))

-- 5 and 7.
incr_decr_lem_example :
    Counted 0 k (pos 12) (server_at (pos 100)) (incr_decr strtoll 0 k (pos 7) (server_at (pos 100)))
unfolding lookup equal_strings number_in check_type get_long_long
incr_decr_lem_example =
    incr_decr_lem 0 k (server_at (pos 100)) (server-IsValid (pos 100)) strtoll (pos 7) (pos 5)
      (pos 12) refl (omega arith, omega arith) (omega arith, omega arith) refl

-- The least integer, on a missing key.
decrby_command-Counted_example :
    Counted 0 missing_key
      (negsuc (2 ^ 63 - 1))
      (server_at (pos 100))
      (decrby_command strtoll 0 missing_key least (server_at (pos 100)))
unfolding lookup equal_strings get_long_long isspace string2ll parse_unsigned parse_digits in_range
decrby_command-Counted_example =
    decrby_command-Counted 0 missing_key (server_at (pos 100)) (server-IsValid (pos 100)) strtoll
      least refl refl

-- GETRANGE z 1 -1, of the text "abc".
getrange_command_lem_example :
    (r : Bytes) × (getrange_command strtoll 0 z (b'1' ∷ []) (b'-' ∷ b'1' ∷ []) (server_at (pos 100))
      ≡ some (bulk r, count_access true (swept (server_at (pos 100)) 0 z)))
    × IsSlice abc 1 2 r
unfolding lookup equal_strings get_long_long isspace string2ll parse_unsigned parse_digits in_range
    decoded
getrange_command_lem_example =
    getrange_command_lem strtoll 0 z (b'1' ∷ []) (b'-' ∷ b'1' ∷ []) (pos 1) (negsuc 0)
      (server_at (pos 100)) (raw abc) 1 2 (server-IsValid (pos 100)) refl refl refl refl (inl refl)
      (omega arith)

-- GETRANGE z 0 4294967296.
getrange_command-overreads_example :
    getrange_command strtoll 0 z (b'0' ∷ []) far (server_at (pos 100)) ≡ none
unfolding lookup equal_strings get_long_long isspace string2ll parse_unsigned parse_digits in_range
    decoded from_end
getrange_command-overreads_example =
    getrange_command-overreads strtoll 0 z (b'0' ∷ []) far (pos 0) (pos (2 ^ 32))
      (server_at (pos 100)) (raw abc) (server-IsValid (pos 100)) refl refl refl (omega arith)
      (omega arith) (omega arith) (omega arith)

-- SETRANGE z 5 x: two zero bytes come between.
setrange_command_lem_example :
    Patched 0 z 5
      (b'x' ∷ [])
      abc
      (server_at (pos 100))
      (setrange_command strtoll 0 z (b'5' ∷ []) (b'x' ∷ []) (server_at (pos 100)))
unfolding lookup equal_strings get_long_long isspace string2ll parse_unsigned parse_digits in_range
    decoded check_type
setrange_command_lem_example =
    setrange_command_lem 0 z 5 (b'x' ∷ []) strtoll (b'5' ∷ []) (server_at (pos 100))
      (server-IsValid (pos 100)) refl (omega arith) (omega arith) (λ e. found≢other _ e)

-- SETRANGE z 9223372036854775807 x.
setrange_command-aborts_example :
    setrange_command strtoll 0 z farthest (b'x' ∷ []) (server_at (pos 100)) ≡ none
unfolding lookup equal_strings get_long_long isspace string2ll parse_unsigned parse_digits in_range
    check_type
setrange_command-aborts_example =
    setrange_command-aborts 0 z (2 ^ 63 - 1) (b'x' ∷ []) strtoll farthest (server_at (pos 100))
      (server-IsValid (pos 100)) refl (omega arith) (omega arith) (omega arith)
      (λ e. found≢other _ e)
