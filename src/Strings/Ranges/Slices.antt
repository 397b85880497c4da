-- ===== src/Strings/Ranges/Slices.antt =====
-- What GETRANGE returns and SETRANGE writes, byte by byte.
use mmog.Common.{
  ℕ, pos, negsuc, subst, sym, ◌⊎◌, ◌+◌, ◌-◌, ◌%◌, ◌^◌, ◌≤◌, ◌<◌, ◌≡◌, refl, ◌∙◌, inl, inr, arith,
  true, false, none, some, [], length, take, drop, get_elem?, get_elem?-take, get_elem?-drop,
  get_elem?_outside, min, ltb, leb, if◌then◌else◌, ℤ, Bool-cases,
}
use mmog.Common.Bytes.{Bytes}
use mmog.Rdb.{Object, raw}
use mmog.Objects.{decoded, Strtoll, get_long_long}
use mmog.Keyspace.{string, Server, lookup_key_read, count_access}
use mmog.Keyspace.Expiry.{IsValid, swept, visible}
use mmog.Keyspace.Entries.{bind_run, lookup_key_read_lem}
use mmog.Keyspace.Commands.{bulk}
use mmog.Strings.{check_type, max_size}
use mmog.Strings.Ranges.{from_end, stop_of, reply_range, getrange_command}

-- The bytes from `first` to `last`, as far as there are any.
abbrev pub IsSlice : Bytes → ℕ → ℕ → Bytes → Type 0
IsSlice str first last r =
    (i : ℕ) → get_elem? r i ≡ (if leb (first + i) last then get_elem? str (first + i) else none)

-- The byte that an index of GETRANGE means in a string of a length.
abbrev pub IsIndex : ℕ → ℤ → ℕ → Type 0
IsIndex strlen (pos n) i = i ≡ n
IsIndex strlen (negsuc n) i = (i + (n + 1) ≡ strlen) ⊎ ((strlen ≤ n) × (i ≡ 0))

from_end-IsIndex :
    (strlen : ℕ) (index : ℤ) (i : ℕ) → IsIndex strlen index i → from_end strlen index ≡ i
unfolding from_end
from_end-IsIndex strlen (pos n) i h = sym h
from_end-IsIndex strlen (negsuc n) i (inl h) = omega arith
from_end-IsIndex strlen (negsuc n) i (inr (h, z)) = omega arith

cut-IsSlice :
    (str : Bytes) (first last stop : ℕ)
    → stop ≡ min (length str) (last + 1)
    → IsSlice str first last (take (stop - first) (drop first str))
cut-IsSlice str first last stop e i = ground (
  arith,
  get_elem?-take (stop - first) (drop first str) i,
  get_elem?-drop first str i,
  get_elem?_outside str (first + i),
)

empty-IsSlice :
    (str : Bytes) (first last stop : ℕ)
    → stop ≡ min (length str) (last + 1)
    → stop ≤ first
    → IsSlice str first last []
empty-IsSlice str first last stop e h i = ground (arith, get_elem?_outside str (first + i))

-- An end below 2 ^ 32 is cut off where the string ends.
stop_of_lem : (strlen end : ℕ) → end < 2 ^ 32 → stop_of strlen end ≡ min strlen (end + 1)
unfolding stop_of
stop_of_lem strlen end h = ground arith

reply_range_lem :
    (str : Bytes) (start end : ℤ) (s : Server)
    → from_end (length str) end < 2 ^ 32
    → (r : Bytes) × (reply_range str start end s ≡ some (bulk r, s))
      × IsSlice str (from_end (length str) start) (from_end (length str) end) r
unfolding reply_range
reply_range_lem str start end s h =
    let first = from_end (length str) start in
    let last = from_end (length str) end in
    let e = stop_of_lem (length str) last h in
    elim (Bool-cases (leb (stop_of (length str) last) first)) [
      | inl nothing ↦ ([], rw nothing refl, empty-IsSlice str first last _ e (ground arith))
      | inr some_bytes ↦
          let inside : ltb (length str) (stop_of (length str) last) ≡ false = ground (arith, e) in
          (_, rw (some_bytes, inside) refl, cut-IsSlice str first last _ e)
    ]

module _ (strtoll : Bytes → Strtoll) (d : ℕ) (key first last : Bytes) (start end : ℤ) (s : Server)
    (x : Object) where
  getrange-run :
      IsValid s
      → visible s d key ≡ some (string x)
      → get_long_long strtoll (raw first) ≡ some start
      → get_long_long strtoll (raw last) ≡ some end
      → getrange_command strtoll d key first last s
        ≡ reply_range (decoded x) start end (count_access true (swept s d key))
  unfolding getrange_command check_type
  getrange-run v held p q =
      rw (p, q, getrange_command)
        (bind_run (lookup_key_read d key) _ s (lookup_key_read_lem d key s v) ∙ (rw held refl))

  -- GETRANGE on a string returns exactly the bytes from the first index to the last one that the string
  -- has. An index that is not negative counts from the first byte, and a negative one from behind the
  -- last, so that -1 is the last byte, stopping at the first byte. The last index counts below 2 ^ 32.
  -- No byte outside the string is read.
  pub getrange_command_lem :
      (i j : ℕ)
      → IsValid s
      → visible s d key ≡ some (string x)
      → get_long_long strtoll (raw first) ≡ some start
      → get_long_long strtoll (raw last) ≡ some end
      → IsIndex (length (decoded x)) start i
      → IsIndex (length (decoded x)) end j
      → j < 2 ^ 32
      → (r : Bytes) × (getrange_command strtoll d key first last s
          ≡ some (bulk r, count_access true (swept s d key)))
        × IsSlice (decoded x) i j r
  getrange_command_lem i j v held p q first_index last_index h =
      let n = length (decoded x) in
      let at_first : from_end n start ≡ i = from_end-IsIndex n start i first_index in
      let at_last : from_end n end ≡ j = from_end-IsIndex n end j last_index in
      let (r, ran, slice) =
        reply_range_lem (decoded x) start end (count_access true (swept s d key))
          (omega (arith, at_last)) in
      (
        r,
        getrange-run v held p q ∙ ran,
        subst (λ l. IsSlice (decoded x) i l r) at_last
            (subst (λ f. IsSlice (decoded x) f (from_end n end) r) at_first slice),
      )

  -- GETRANGE with an end of 2 ^ 32 or more of which the low 32 bits are below the length of the string,
  -- and a start that is not above the end, reads bytes behind the string, since the end is compared as
  -- an `unsigned`.
  pub getrange_command-overreads :
      IsValid s
      → visible s d key ≡ some (string x)
      → get_long_long strtoll (raw first) ≡ some start
      → get_long_long strtoll (raw last) ≡ some end
      → length (decoded x) ≤ max_size
      → 2 ^ 32 ≤ from_end (length (decoded x)) end
      → from_end (length (decoded x)) end % 2 ^ 32 < length (decoded x)
      → from_end (length (decoded x)) start ≤ from_end (length (decoded x)) end
      → getrange_command strtoll d key first last s ≡ none
  unfolding reply_range stop_of
  getrange_command-overreads v held p q size wide low order =
      let n = length (decoded x) in
      let last' = from_end n end in
      let uncut : leb n (last' % 2 ^ 32) ≡ false = ground arith in
      let some_bytes : leb (last' + 1) (from_end n start) ≡ false = ground arith in
      let behind : ltb n (last' + 1) ≡ true = ground arith in
      getrange-run v held p q ∙ (rw (uncut, some_bytes, behind) refl)
