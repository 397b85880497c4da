-- ===== src/Strings/Stored.antt =====
-- What SET stores under a key, when it does, and what GET finds there.
use mmog.Common.{
  ℕ, ◌≡◌, refl, sym, ap, ◌∙◌, ◌⊎◌, inl, inr, arith, ◌&&◌, ◌||◌, not, Bool, true, false, Option,
  none, some, ◌∷◌, if◌then◌else◌, ℤ, Bool-cases, false≢true, Option-cases,
}
use mmog.Common.Bytes.{Bytes}
use mmog.Numbers.{string2l}
use mmog.Numbers.Contract.{string2ll_iff, string2l_lem}
use mmog.Rdb.{Object, raw}
use mmog.Objects.{add64, decoded, try_object_encoding}
use mmog.Keyspace.{
  Value, string, Server, is_some, set_db, add_dirty, set_expire, lookup_key_write, lookup_key_read,
  set_key, count_access,
}
use mmog.Keyspace.Map.{lookup}
use mmog.Keyspace.Expiry.{IsValid, past, swept, visible}
use mmog.Keyspace.Entries.{
  bind_run, Entry, entry, Changes, Changes-trans, Changes-here, Changes-IsValid, Changes-time,
  swept_entry, swept-swept, Changes-swept, swept-IsValid, lookup_key_write_lem, lookup_key_read_lem,
  same_place,
}
use mmog.Keyspace.Writes.{
  there-swept, swept-mstime, swept-modified, set_state, set_key_lem, set_state-KeySet, put_time,
  set_expire_lem,
}
use mmog.Keyspace.Commands.{Reply}
use mmog.Strings.{get_reply, get_command}
use mmog.Strings.Setting.{Flags, lookup_if, set_with_time, set_if}

-- An object that is encoded as a number still stands for the same text.
pub decoded-try_object_encoding : (s : Bytes) → decoded (try_object_encoding (raw s)) ≡ s
unfolding try_object_encoding decoded
decoded-try_object_encoding s = elim (Option-cases (string2l s)) [
  | inl e ↦ rw (e, decoded) refl
  | inr (v, e) ↦
      rw (e, decoded) ((string2ll_iff 32 s v (omega arith)).0 (sym (string2l_lem s) ∙ e)).1
]

-- A key with a value and no time is found.
pub visible_without_time :
    (s : Server) (d : ℕ) (key : Bytes) (o : Option Value)
    → entry s d key ≡ (o, none)
    → visible s d key ≡ o
visible_without_time s d key o e =
    let no_time : lookup key (s.db d).expires ≡ none = ap (λ x. x.1) e in
    rw no_time (ap (λ x. x.0) e)

pub get_command_lem :
    (d : ℕ) (key : Bytes) (s : Server)
    → IsValid s
    → get_command d key s
      ≡ some (get_reply (visible s d key), count_access (is_some (visible s d key)) (swept s d key))
unfolding get_command
get_command_lem d key s v = bind_run (lookup_key_read d key) _ s (lookup_key_read_lem d key s v)

-- The entry that SET writes: the value, and the time where one is given.
abbrev pub new_entry : Object → Option ℤ → ℤ → Entry
new_entry val none now = (some (string val), none)
new_entry val (some ms) now = (some (string val), some (add64 now ms))

module _ (d : ℕ) (key : Bytes) (val : Object) where
  -- The key is written, and everything else is left.
  pub record Stored (time : Option ℤ) (reply : Reply) (s : Server) (r : Option (Reply × Server))
      : Type 0 where
    pub after : Server
    pub returns : r ≡ some (reply, after)
    pub changes : Changes s after d key (new_entry val time s.mstime)
    pub signalled : after.modified ≡ (d, key) ∷ s.modified
    pub valid : IsValid after

  pub set_with_time-Stored :
      (time : Option ℤ) (reply : Reply) (s : Server)
      → IsValid s
      → Stored time reply s (set_with_time d key val time reply s)
  unfolding set_with_time add_dirty
  set_with_time-Stored none reply s v =
      let k = set_state-KeySet d key (string val) s v in
      record {
        after = _;
        returns = bind_run (set_key d key (string val)) _ s (set_key_lem d key (string val) s v);
        changes = k.changes;
        signalled = k.signalled;
        valid = k.valid;
      }
  set_with_time-Stored (some ms) reply s v =
      let k = set_state-KeySet d key (string val) s v in
      let t = set_state d key (string val) s in
      let u = add_dirty 1 t in
      let here : entry u d key ≡ (some (string val), none) = Changes-here s t d key _ k.changes in
      let when = add64 t.mstime ms in
      let written : set_expire d key when u ≡ some (tt, put_time d key when u) =
        set_expire_lem d key when u (ap (λ x. is_some x.0) here) in
      let changes : Changes s (put_time d key when u) d key
          (some (string val), some (add64 s.mstime ms)) =
        Changes-trans s u (put_time d key when u) d key (some (string val), none) _ k.changes
          (λ e j. Changes-time d key u when e j ∙ same_entry u here k.clock e j) in
      record {
        after = put_time d key when u;
        returns =
            bind_run (set_key d key (string val)) _ s (set_key_lem d key (string val) s v)
            ∙ bind_run (λ s'. set_expire d key (add64 s'.mstime ms) s') _ u written;
        changes = changes;
        signalled = unfold set_db in k.signalled;
        valid = Changes-IsValid s (put_time d key when u) d key _ v changes (λ h. refl);
      }
    where
      same_entry :
          (u : Server)
          → entry u d key ≡ (some (string val), none)
          → u.mstime ≡ s.mstime
          → (e : ℕ) (j : Bytes)
          → (if same_place d key e j
              then (lookup key (u.db d).dict, some (add64 u.mstime ms))
              else entry u e j)
            ≡ (if same_place d key e j
                then (some (string val), some (add64 s.mstime ms))
                else entry u e j)
      same_entry u h c e j = rw (ap (λ (x : Entry). x.0) h, c) refl

  -- The look at the key is made before.
  pub Stored-swept :
      (time : Option ℤ) (reply : Reply) (s : Server) (r : Option (Reply × Server))
      → Stored time reply (swept s d key) r
      → Stored time reply s r
  Stored-swept time reply s r k = record {
    after = k.after;
    returns = k.returns;
    changes =
        Changes-trans s (swept s d key) k.after d key (swept_entry d key s) _
          (Changes-swept d key s)
          (λ e j.
            k.changes e j
            ∙ ap
                (λ now.
                  if same_place d key e j
                  then new_entry val time now
                  else entry (swept s d key) e j)
                (swept-mstime d key s));
    signalled = k.signalled ∙ ap (λ l. (d, key) ∷ l) (swept-modified d key s);
    valid = k.valid;
  }

  -- The key space is left, but for a key that is past its time.
  pub record Kept (reply : Reply) (s : Server) (r : Option (Reply × Server)) : Type 0 where
    pub after : Server
    pub returns : r ≡ some (reply, after)
    pub changes : Changes s after d key (swept_entry d key s)
    pub unsignalled : after.modified ≡ s.modified
    pub valid : IsValid after

  pub Kept-here :
      (reply : Reply) (s : Server) → IsValid s → Kept reply s (some (reply, swept s d key))
  Kept-here reply s v = record {
    after = swept s d key;
    returns = refl;
    changes = Changes-swept d key s;
    unsignalled = swept-modified d key s;
    valid = swept-IsValid d key s v;
  }

  -- What NX and XX ask for is not the case.
  abbrev pub refuses : Flags → Option Value → Bool
  refuses flags old = (flags.nx && is_some old) || (flags.xx && not (is_some old))

  module _ (time : Option ℤ) (yes_reply no_reply : Reply) (s : Server) (v : IsValid s) where
    abbrev pub run_set : Bool → Bool → Option (Reply × Server)
    run_set nx xx = set_if (record { nx = nx; xx = xx }) d key val time yes_reply no_reply s

    -- The two looks, and what follows each.
    pub nx_only :
        (old : Bool)
        → is_some (visible s d key) ≡ old
        → run_set true false ≡ (
            if old
            then some (no_reply, swept s d key)
            else set_with_time d key val time yes_reply (swept s d key))
    unfolding set_if lookup_if
    nx_only true h =
        bind_run (lookup_key_write d key) _ s (lookup_key_write_lem d key s v) ∙ (rw h refl)
    nx_only false h =
        bind_run (lookup_key_write d key) _ s (lookup_key_write_lem d key s v) ∙ (rw h refl)

    pub xx_only :
        (old : Bool)
        → is_some (visible s d key) ≡ old
        → run_set false true ≡ (
            if old
            then set_with_time d key val time yes_reply (swept s d key)
            else some (no_reply, swept s d key))
    unfolding set_if lookup_if
    xx_only true h =
        bind_run (lookup_key_write d key) _ s (lookup_key_write_lem d key s v) ∙ (rw h refl)
    xx_only false h =
        bind_run (lookup_key_write d key) _ s (lookup_key_write_lem d key s v) ∙ (rw h refl)

    pub both :
        (old : Bool)
        → is_some (visible s d key) ≡ old
        → run_set true true ≡ some (no_reply, swept s d key)
    unfolding set_if lookup_if
    both true h =
        bind_run (lookup_key_write d key) _ s (lookup_key_write_lem d key s v) ∙ (rw h refl)
    both false h =
        let t = swept s d key in
        let gone : visible t d key ≡ none = still_none (visible s d key) h (there-swept d key s) in
        bind_run (lookup_key_write d key) _ s (lookup_key_write_lem d key s v)
        ∙ (rw h (
            bind_run (lookup_key_write d key) _ t
              (lookup_key_write_lem d key t (swept-IsValid d key s v))
            ∙ (rw (gone, swept-swept d key s) refl)))
      where
        still_none :
            (o : Option Value)
            → is_some o ≡ false
            → is_some (lookup key ((swept s d key).db d).dict) ≡ is_some o
            → visible (swept s d key) d key ≡ none
        still_none o h e =
            by_flag (Bool-cases (past (swept s d key) d key && not (swept s d key).masterhost))
              (none_of _ (e ∙ h))
          where
            none_of : (o : Option Value) → is_some o ≡ false → o ≡ none
            none_of none h = refl
            none_of (some x) h = absurd (false≢true (sym h))

            by_flag :
                {b : Bool}
                → (b ≡ true) ⊎ (b ≡ false)
                → lookup key ((swept s d key).db d).dict ≡ none
                → (if b then none else lookup key ((swept s d key).db d).dict) ≡ none
            by_flag (inl g) n = rw g refl
            by_flag (inr g) n = rw g n
