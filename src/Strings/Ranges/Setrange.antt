-- ===== src/Strings/Ranges/Setrange.antt =====
-- SETRANGE as a whole.
use mmog.Common.{
  ℕ, ◌+◌, ◌^◌, ◌≤◌, ◌<◌, ◌≡◌, ◌≢◌, refl, sym, ap, subst, ◌∙◌, arith, true, false, Option, none,
  some, [], ◌∷◌, length, max, leb, ◌==◌, if◌then◌else◌, ℤ, pos,
}
use mmog.Common.Bytes.{Bytes}
use mmog.Rdb.{raw}
use mmog.Objects.{decoded, Strtoll, get_long_long}
use mmog.Keyspace.{
  ◌>>◌, Value, string, aggregate, Server, is_some, set_db, signal_modified_key, add_dirty, db_add,
  db_overwrite, lookup_key_write,
}
use mmog.Keyspace.Map.{lookup}
use mmog.Keyspace.Expiry.{IsValid, swept, visible}
use mmog.Keyspace.Entries.{
  bind_run, entry, same_place, Changes, Changes-trans, Changes-here, Changes-IsValid, Changes-value,
  swept_entry, Changes-swept, lookup_key_write_lem,
}
use mmog.Keyspace.Writes.{
  put_value, there, there-swept, there-put_value, db_add_lem, db_overwrite_lem, swept-modified,
}
use mmog.Keyspace.Commands.{Reply, number}
use mmog.Strings.{check_type, other, max_size, end_of, is_too_long}
use mmog.Strings.Ranges.{patch, write_range, setrange_command}
use mmog.Strings.Ranges.Patches.{IsPatched, patch-IsPatched, length-patch, end_of_lem, end_of_wraps}

-- The bytes under a key: none where it is missing.
abbrev pub bytes_of : Option Value → Bytes
bytes_of none = []
bytes_of (some (string o)) = decoded o
bytes_of (some (aggregate k n)) = []

module _ (d : ℕ) (key : Bytes) (offset : ℕ) (value : Bytes) where
  -- The key holds the patched string and the time that it had; nothing else changes.
  pub record Patched (old : Bytes) (s : Server) (r : Option (Reply × Server)) : Type 0 where
    pub after : Server
    pub text : Bytes
    pub returns : r ≡ some (number (pos (max (length old) (offset + length value))), after)
    pub patched : IsPatched old offset value text
    pub changes : Changes s after d key (some (string (raw text)), (swept_entry d key s).1)
    pub signalled : after.modified ≡ (d, key) ∷ s.modified
    pub valid : IsValid after

  -- A server on which only the value of the key has changed.
  abbrev Touched : Server → Server → Type 0
  Touched s t =
      (o : Option Value) × Changes s t d key (o, (swept_entry d key s).1)
      × (t.modified ≡ s.modified)
      × (there d key t ≡ true)

  write_range-Patched :
      (old : Bytes) (s t : Server)
      → IsValid s
      → offset + length value < 2 ^ 63
      → Touched s t
      → Patched old s (write_range d key old offset value t)
  unfolding write_range add_dirty signal_modified_key set_db
  write_range-Patched old s t v h (o, c, m, present) =
      let text = patch old offset value in
      let u = put_value d key (string (raw text)) t in
      let possible : leb (2 ^ 63) (offset + length value) ≡ false = ground arith in
      let old_time : lookup key (t.db d).expires ≡ (swept_entry d key s).1 =
        ap (λ x. x.1) (Changes-here s t d key _ c) in
      let changes : Changes s u d key (some (string (raw text)), (swept_entry d key s).1) =
        Changes-trans s t u d key _ _ c (λ e j.
          Changes-value d key t (string (raw text)) e j
          ∙ ap
              (λ (q : Option ℤ).
                if same_place d key e j then (some (string (raw text)), q) else entry t e j)
              old_time) in
      record {
        after = add_dirty 1 (signal_modified_key d key u);
        text = text;
        returns =
            (rw possible (
              bind_run (db_overwrite d key (string (raw text))) _ t
                (db_overwrite_lem d key (string (raw text)) t present)))
            ∙ ap (λ n. some (number (pos n), add_dirty 1 (signal_modified_key d key u)))
                (length-patch old offset value);
        patched = patch-IsPatched old offset value;
        changes = changes;
        signalled = ap (λ l. (d, key) ∷ l) m;
        valid = Changes-IsValid s u d key _ v changes (λ h. refl);
      }

  module _ (strtoll : Bytes → Strtoll) (param : Bytes) (s : Server) (v : IsValid s) where
    by_value :
        (o : Option Value)
        → visible s d key ≡ o
        → get_long_long strtoll (raw param) ≡ some (pos offset)
        → (length value == 0) ≡ false
        → is_too_long (end_of (pos offset) (length value)) ≡ false
        → check_type o ≢ other
        → setrange_command strtoll d key param value s
          ≡ (if is_some o
                then write_range d key (bytes_of o) offset value
                else (db_add d key (string (raw [])) >> write_range d key [] offset value))
              (swept s d key)
    unfolding setrange_command check_type
    by_value none held p some_bytes short h =
        rw (p, setrange_command)
          (bind_run (lookup_key_write d key) _ s (lookup_key_write_lem d key s v)
            ∙ (rw (held, some_bytes, short) refl))
    by_value (some (string o)) held p some_bytes short h =
        rw (p, setrange_command)
          (bind_run (lookup_key_write d key) _ s (lookup_key_write_lem d key s v)
            ∙ (rw (held, some_bytes, short) refl))
    by_value (some (aggregate k n)) held p some_bytes short h = absurd (h refl)

    finish :
        (o : Option Value)
        → visible s d key ≡ o
        → offset + length value < 2 ^ 63
        → Patched (bytes_of o) s (
            (if is_some o
                then write_range d key (bytes_of o) offset value
                else (db_add d key (string (raw [])) >> write_range d key [] offset value))
              (swept s d key))
    finish (some x) held h = write_range-Patched (bytes_of (some x)) s (swept s d key) v h (
      (swept_entry d key s).0,
      Changes-swept d key s,
      swept-modified d key s,
      there-swept d key s ∙ ap is_some held,
    )
    finish none held h =
        let t = swept s d key in
        let u = put_value d key (string (raw [])) t in
        let absent : there d key t ≡ false = there-swept d key s ∙ ap is_some held in
        let old_time : lookup key (t.db d).expires ≡ (swept_entry d key s).1 =
          ap (λ x. x.1) (Changes-here s t d key _ (Changes-swept d key s)) in
        let changes : Changes s u d key (some (string (raw [])), (swept_entry d key s).1) =
          Changes-trans s t u d key (swept_entry d key s) _ (Changes-swept d key s) (λ e j.
            Changes-value d key t (string (raw [])) e j
            ∙ ap
                (λ (q : Option ℤ).
                  if same_place d key e j then (some (string (raw [])), q) else entry t e j)
                old_time) in
        subst (Patched [] s)
          (sym (
            bind_run (db_add d key (string (raw []))) (λ _. write_range d key [] offset value) t
              (db_add_lem d key (string (raw [])) t absent)))
          (write_range-Patched [] s u v h (
            some (string (raw [])),
            changes,
            (unfold set_db in swept-modified d key s),
            there-put_value d key (string (raw [])) t,
          ))

    -- SETRANGE on a valid server, at an offset that is a number, with at least one byte, for a key that
    -- is missing or holds a string, and a result of at most 512 MB: the key holds the old string with
    -- the new bytes at the offset, and zero bytes where there were none, the reply is its length, the
    -- key keeps its time, and no other key changes. No assertion fails.
    pub setrange_command_lem :
        get_long_long strtoll (raw param) ≡ some (pos offset)
        → 0 < length value
        → offset + length value ≤ max_size
        → check_type (visible s d key) ≢ other
        → Patched (bytes_of (visible s d key)) s (setrange_command strtoll d key param value s)
    setrange_command_lem p some_bytes small h =
        let short : is_too_long (end_of (pos offset) (length value)) ≡ false =
          ap is_too_long (end_of_lem offset (length value) (omega arith))
          ∙ (unfold is_too_long in ground arith) in
        subst (Patched (bytes_of (visible s d key)) s)
          (sym (by_value (visible s d key) refl p (ground arith) short h))
          (finish (visible s d key) refl (omega arith))

    -- SETRANGE at a 64-bit offset that exceeds 2 ^ 63 together with the new bytes, which are at most
    -- 512 MB, passes the check of the size, since the sum wraps around, and asks for that many bytes:
    -- the server aborts.
    pub setrange_command-aborts :
        get_long_long strtoll (raw param) ≡ some (pos offset)
        → length value ≤ max_size
        → offset < 2 ^ 63
        → 2 ^ 63 ≤ offset + length value
        → check_type (visible s d key) ≢ other
        → setrange_command strtoll d key param value s ≡ none
    unfolding write_range
    setrange_command-aborts p small high wraps h =
        by_value (visible s d key) refl p (ground arith)
          (end_of_wraps offset (length value) high small wraps) h
        ∙ by_presence (visible s d key) refl
      where
        too_many : leb (2 ^ 63) (offset + length value) ≡ true
        too_many = ground arith

        by_presence :
            (o : Option Value)
            → visible s d key ≡ o
            → (if is_some o
                  then write_range d key (bytes_of o) offset value
                  else (db_add d key (string (raw [])) >> write_range d key [] offset value))
                (swept s d key)
              ≡ none
        by_presence (some x) held = rw too_many refl
        by_presence none held =
            bind_run (db_add d key (string (raw []))) (λ _. write_range d key [] offset value)
              (swept s d key)
              (db_add_lem d key (string (raw [])) (swept s d key)
                (there-swept d key s ∙ ap is_some held))
            ∙ (rw too_many refl)
