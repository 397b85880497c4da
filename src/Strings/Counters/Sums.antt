-- ===== src/Strings/Counters/Sums.antt =====
-- INCR and DECR count exactly: the sum of the integers, or an error and no change.
use mmog.Common.{
  ℕ, ◌+◌, ◌-◌, ◌^◌, ◌≡◌, refl, ap, ◌∙◌, inl, inr, arith, ◌&&◌, not, Bool, true, Option, none, some,
  [], ◌∷◌, if◌then◌else◌, ℤ, pos, negsuc, pos_part, neg_part, leb_ℤ, Bool-cases,
}
use mmog.Common.Bytes.{Bytes}
use mmog.Memory.Signed.{Fits, to_word, of_word}
use mmog.Rdb.{raw, int}
use mmog.Objects.{add64, neg64, Strtoll, get_long_long}
use mmog.Keyspace.{
  ◌>>◌, pure, update, string, Server, is_some, set_db, signal_modified_key, add_dirty, db_add,
  db_overwrite, lookup_key_write,
}
use mmog.Keyspace.Map.{lookup}
use mmog.Keyspace.Expiry.{IsValid, swept, visible}
use mmog.Keyspace.Entries.{
  bind_run, entry, same_place, Changes, Changes-trans, Changes-here, Changes-IsValid, Changes-value,
  swept_entry, Changes-swept, lookup_key_write_lem,
}
use mmog.Keyspace.Writes.{put_value, put_lem, there-swept, swept-modified}
use mmog.Keyspace.Commands.{Reply, number, overflow}
use mmog.Strings.{check_type}
use mmog.Strings.Counters.{
  reads, number_in, would_overflow, store_number, incr_decr, decrby_command,
}
use mmog.Strings.Stored.{Kept, Kept-here}

-- c is a + b, as integers.
abbrev pub IsSum : ℤ → ℤ → ℤ → Type 0
IsSum a b c = pos_part c + (neg_part a + neg_part b) ≡ neg_part c + (pos_part a + pos_part b)

-- c is a 64-bit integer.
abbrev pub fits64 : ℤ → Bool
fits64 c = leb_ℤ (negsuc (2 ^ 63 - 1)) c && leb_ℤ c (pos (2 ^ 63 - 1))

would_overflow_lem :
    (incr old c : ℤ)
    → Fits 8 incr
    → Fits 8 old
    → IsSum old incr c
    → would_overflow incr old ≡ not (fits64 c)
unfolding would_overflow
would_overflow_lem (pos a) (pos b) (pos c) f g h = ground arith
would_overflow_lem (pos a) (pos b) (negsuc c) f g h = ground arith
would_overflow_lem (pos a) (negsuc b) (pos c) f g h = ground arith
would_overflow_lem (pos a) (negsuc b) (negsuc c) f g h = ground arith
would_overflow_lem (negsuc a) (pos b) (pos c) f g h = ground arith
would_overflow_lem (negsuc a) (pos b) (negsuc c) f g h = ground arith
would_overflow_lem (negsuc a) (negsuc b) (pos c) f g h = ground arith
would_overflow_lem (negsuc a) (negsuc b) (negsuc c) f g h = ground arith

add64_lem : (a b c : ℤ) → Fits 8 a → Fits 8 b → IsSum a b c → fits64 c ≡ true → add64 a b ≡ c
unfolding add64 to_word of_word
add64_lem (pos a) (pos b) (pos c) f g h i = ground arith
add64_lem (pos a) (pos b) (negsuc c) f g h i = ground arith
add64_lem (pos a) (negsuc b) (pos c) f g h i = ground arith
add64_lem (pos a) (negsuc b) (negsuc c) f g h i = ground arith
add64_lem (negsuc a) (pos b) (pos c) f g h i = ground arith
add64_lem (negsuc a) (pos b) (negsuc c) f g h i = ground arith
add64_lem (negsuc a) (negsuc b) (pos c) f g h i = ground arith
add64_lem (negsuc a) (negsuc b) (negsuc c) f g h i = ground arith

-- The key holds the number, and the time that it had; nothing else changes.
pub record Counted (d : ℕ) (key : Bytes) (c : ℤ) (s : Server) (r : Option (Reply × Server))
    : Type 0 where
  pub after : Server
  pub returns : r ≡ some (number c, after)
  pub changes : Changes s after d key (some (string (int c)), (swept_entry d key s).1)
  pub signalled : after.modified ≡ (d, key) ∷ s.modified
  pub dirtied : after.dirty ≡ (swept s d key).dirty + 1
  pub valid : IsValid after

module _ (d : ℕ) (key : Bytes) (s : Server) (v : IsValid s) where
  store_number-Counted :
      (c : ℤ) → Counted d key c s (store_number d key (is_some (visible s d key)) c (swept s d key))
  unfolding store_number add_dirty signal_modified_key set_db
  store_number-Counted c =
      let t = swept s d key in
      let u = put_value d key (string (int c)) t in
      let old_time : lookup key (t.db d).expires ≡ (swept_entry d key s).1 =
        ap (λ x. x.1) (Changes-here s t d key _ (Changes-swept d key s)) in
      let changes : Changes s u d key (some (string (int c)), (swept_entry d key s).1) =
        Changes-trans s t u d key (swept_entry d key s) _ (Changes-swept d key s) (λ e j.
          Changes-value d key t (string (int c)) e j
          ∙ ap
              (λ (o : Option ℤ).
                if same_place d key e j then (some (string (int c)), o) else entry t e j)
              old_time) in
      record {
        after = add_dirty 1 (signal_modified_key d key u);
        returns =
            bind_run
              (if is_some (visible s d key)
                then db_overwrite d key (string (int c))
                else db_add d key (string (int c)))
              (λ _. update (λ s'. add_dirty 1 (signal_modified_key d key s')) >> pure (number c)) t
              (put_lem d key (string (int c)) t (is_some (visible s d key)) (there-swept d key s));
        changes = changes;
        signalled = ap (λ l. (d, key) ∷ l) (swept-modified d key s);
        dirtied = refl;
        valid = Changes-IsValid s u d key _ v changes (λ h. refl);
      }

  incr_decr-run :
      (strtoll : Bytes → Strtoll) (incr old : ℤ)
      → number_in strtoll (check_type (visible s d key)) ≡ reads old
      → incr_decr strtoll d key incr s
        ≡ (if would_overflow incr old
              then pure overflow
              else store_number d key (is_some (visible s d key)) (add64 old incr))
            (swept s d key)
  unfolding incr_decr
  incr_decr-run strtoll incr old held =
      bind_run (lookup_key_write d key) _ s (lookup_key_write_lem d key s v) ∙ (rw held refl)

  -- INCR, DECR, INCRBY and DECRBY on a valid server, for a key that is missing or holds the integer
  -- `old`, where `c` is the exact sum of `old` and the increment, both 64-bit integers: if the sum is a
  -- 64-bit integer too, the reply and the new value are the sum, the key keeps its time, and no other
  -- key changes; otherwise the reply is an error and the key space is left, but for a key that is past
  -- its time. No assertion fails.
  pub incr_decr_lem :
      (strtoll : Bytes → Strtoll) (incr old c : ℤ)
      → number_in strtoll (check_type (visible s d key)) ≡ reads old
      → Fits 8 incr
      → Fits 8 old
      → IsSum old incr c
      → if fits64 c
        then Counted d key c s (incr_decr strtoll d key incr s)
        else Kept d key (raw []) overflow s (incr_decr strtoll d key incr s)
  incr_decr_lem strtoll incr old c held f g h = elim (Bool-cases (fits64 c)) [
    | inl fits ↦
        rw
          (
            fits,
            incr_decr-run strtoll incr old held,
            would_overflow_lem incr old c f g h ∙ ap not fits,
            add64_lem old incr c g f h fits,
          )
          (store_number-Counted c)
    | inr too_large ↦
        rw
          (
            too_large,
            incr_decr-run strtoll incr old held,
            would_overflow_lem incr old c f g h ∙ ap not too_large,
          )
          (Kept-here d key (raw []) overflow s v)
  ]

  -- The least 64-bit integer.
  abbrev llong_min : ℤ
  llong_min = negsuc (2 ^ 63 - 1)

  neg64_min : neg64 llong_min ≡ llong_min
  unfolding neg64 to_word of_word
  neg64_min = refl

  -- DECRBY with the least 64-bit integer, on a valid server and a missing key, counts down to it
  -- instead of refusing the difference, which is no 64-bit integer: the negation wraps around.
  pub decrby_command-Counted :
      (strtoll : Bytes → Strtoll) (param : Bytes)
      → get_long_long strtoll (raw param) ≡ some llong_min
      → visible s d key ≡ none
      → Counted d key llong_min s (decrby_command strtoll d key param s)
  unfolding decrby_command number_in check_type
  decrby_command-Counted strtoll param p held =
      rw (p, decrby_command, neg64_min)
        (incr_decr_lem strtoll llong_min (pos 0) llong_min (rw held refl) (omega arith, omega arith)
          (omega arith, omega arith) refl)
