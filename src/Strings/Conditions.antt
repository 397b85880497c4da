-- ===== src/Strings/Conditions.antt =====
-- SET under its conditions, and what GET finds afterwards.
use mmog.Common.{
  ℕ, ◌≡◌, refl, ap, ◌∙◌, ◌&&◌, ◌||◌, not, Bool, true, false, Option, none, some, [], if◌then◌else◌,
  ℤ,
}
use mmog.Common.Bytes.{Bytes}
use mmog.Rdb.{Object, raw}
use mmog.Objects.{try_object_encoding, Strtoll}
use mmog.Keyspace.{string, Server, is_some, count_access}
use mmog.Keyspace.Expiry.{IsValid, swept, visible}
use mmog.Keyspace.Entries.{Changes, Changes-here, swept-IsValid}
use mmog.Keyspace.Commands.{Reply, ok, nil, bulk}
use mmog.Strings.{get_reply, get_command}
use mmog.Strings.Setting.{
  lookup_if, Flags, no_flags, set_with_time, set_if, set_generic, set_options, set_command,
}
use mmog.Strings.Stored.{
  decoded-try_object_encoding, visible_without_time, get_command_lem, Stored, set_with_time-Stored,
  Stored-swept, Kept, Kept-here, refuses, nx_only, xx_only, both, run_set,
}

module _ (d : ℕ) (key : Bytes) (val : Object) (time : Option ℤ) (yes_reply no_reply : Reply)
    (s : Server) where
  -- One of the two ends, as the conditions ask.
  abbrev Ends : Bool → Option (Reply × Server) → Type 0
  Ends refused r =
      if refused then Kept d key val no_reply s r else Stored d key val time yes_reply s r

  stored :
      IsValid s
      → Stored d key val time yes_reply s (set_with_time d key val time yes_reply (swept s d key))
  stored v =
      Stored-swept d key val time yes_reply s _
        (set_with_time-Stored d key val time yes_reply (swept s d key) (swept-IsValid d key s v))

  by_flags :
      (v : IsValid s) (nx xx old : Bool)
      → is_some (visible s d key) ≡ old
      → Ends ((nx && old) || (xx && not old)) (run_set d key val time yes_reply no_reply s v nx xx)
  by_flags v false false old h =
      unfold set_if lookup_if in set_with_time-Stored d key val time yes_reply s v
  by_flags v true false true h =
      rw (nx_only d key val time yes_reply no_reply s v true h) (Kept-here d key val no_reply s v)
  by_flags v true false false h =
      rw (nx_only d key val time yes_reply no_reply s v false h) (stored v)
  by_flags v false true true h =
      rw (xx_only d key val time yes_reply no_reply s v true h) (stored v)
  by_flags v false true false h =
      rw (xx_only d key val time yes_reply no_reply s v false h) (Kept-here d key val no_reply s v)
  by_flags v true true true h =
      rw (both d key val time yes_reply no_reply s v true h) (Kept-here d key val no_reply s v)
  by_flags v true true false h =
      rw (both d key val time yes_reply no_reply s v false h) (Kept-here d key val no_reply s v)

  -- The end of `setGenericCommand` on a valid server: where NX finds the key or XX does not, the reply
  -- is the second one and no key changes, but that one that is past its time is deleted; otherwise the
  -- reply is the first one, the key has the value and the time that is asked for, no other key of any
  -- database changes, and the key is signalled as modified once. No assertion fails.
  pub set_if_lem :
      (flags : Flags)
      → IsValid s
      → if refuses d key val flags (visible s d key)
        then Kept d key val no_reply s (set_if flags d key val time yes_reply no_reply s)
        else Stored d key val time yes_reply s (set_if flags d key val time yes_reply no_reply s)
  set_if_lem flags v = by_flags v flags.nx flags.xx (is_some (visible s d key)) refl

-- GET after SET with no options returns the string that was set, byte for byte, also where it is
-- encoded as a number; both replies are no errors, the server stays valid, and SET changes no other
-- key.
pub get_command-set_command :
    (strtoll : Bytes → Strtoll) (d : ℕ) (key val : Bytes) (s : Server)
    → IsValid s
    → (t : Server) × (set_command strtoll d key val [] s ≡ some (ok, t))
      × IsValid t
      × Changes s t d key (some (string (try_object_encoding (raw val))), none)
      × ((u : Server) × (get_command d key t ≡ some (bulk val, u)))
unfolding set_command set_options set_generic get_reply
get_command-set_command strtoll d key val s v =
    let k = set_if_lem d key (try_object_encoding (raw val)) none ok nil s no_flags v in
    let t = k.after in
    let found : visible t d key ≡ some (string (try_object_encoding (raw val))) =
      visible_without_time t d key _ (Changes-here s t d key _ k.changes) in
    (
      t,
      k.returns,
      k.valid,
      k.changes,
      (
        count_access (is_some (visible t d key)) (swept t d key),
        get_command_lem d key t k.valid
            ∙ ap (λ r. some (r, count_access (is_some (visible t d key)) (swept t d key)))
                (ap get_reply found ∙ ap bulk (decoded-try_object_encoding val)),
      ),
    )
