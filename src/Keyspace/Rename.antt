-- ===== src/Keyspace/Rename.antt =====
-- RENAME and RENAMENX move a value and its time to another key.
use mmog.Common.{
  ℕ, ◌≡◌, refl, sym, ap, subst, ◌∙◌, inl, inr, arith, ◌&&◌, not, Bool, true, false, Option, none,
  some, if◌then◌else◌, ℤ, pos, negsuc, Bool-cases, false≢true, eqb_ℤ, leb_ℤ, ltb_ℤ,
}
use mmog.Common.Bytes.{Bytes, equal_strings}
use mmog.Keyspace.{
  pure, Value, Server, is_some, set_db, signal_modified_key, add_dirty, db_add, db_delete,
  set_expire, propagate_expire, count_expired, lookup_key_write,
}
use mmog.Keyspace.Map.{lookup}
use mmog.Keyspace.Expiry.{IsValid, swept, visible, time_of, get_expire_lem, db_delete_lem}
use mmog.Keyspace.Entries.{
  bind_run, Entry, entry, same_place, Changes, Changes-trans, Changes-here, Changes-value,
  Changes-time, Changes-without, Changes-swept, swept-IsValid, lookup_key_write_lem,
}
use mmog.Keyspace.Writes.{
  put_value, put_time, drop_key, there, there-swept, db_add_lem, set_expire_lem, swept-field,
  swept-mstime,
}
use mmog.Keyspace.Commands.{Reply, ok, one, read_expire, rename_generic, rename_to}

-- The look of an entry at a time.
abbrev seen : Entry → ℤ → Bool → Bool → Option Value
seen x now loading slave =
    if (elim (x.1) [ none ↦ false | some t ↦ leb_ℤ (pos 0) t && ltb_ℤ t now ] && not loading)
      && not slave
    then none
    else x.0

module _ (d : ℕ) (src dst : Bytes) (differ : equal_strings src dst ≡ false) where
  elsewhere : same_place d src d dst ≡ false
  elsewhere = ground arith

  -- A look at one key does not change what is seen at another.
  pub visible-swept_other : (s : Server) → visible (swept s d src) d dst ≡ visible s d dst
  unfolding set_db propagate_expire count_expired
  visible-swept_other s =
      let t = swept s d src in
      let here : entry t d dst ≡ entry s d dst =
        Changes-swept d src s d dst ∙ (rw elsewhere refl) in
      ap (λ x. seen x t.mstime t.loading t.masterhost) here
      ∙ ap (λ now. seen (entry s d dst) now t.loading t.masterhost) (swept-mstime d src s)
      ∙ ap (λ l. seen (entry s d dst) s.mstime l t.masterhost)
          (swept-field d src (λ u. u.loading) s (λ x. refl))
      ∙ ap (λ m. seen (entry s d dst) s.mstime s.loading m)
          (swept-field d src (λ u. u.masterhost) s (λ x. refl))

  -- The time that a key takes along: -1 stands for none.
  abbrev pub moved_time : ℤ → Option ℤ
  moved_time t = if eqb_ℤ t (negsuc 0) then none else some t

  -- The source is gone, the target has its value and time, and nothing else changes.
  pub record Renamed (o : Value) (reply : Reply) (s : Server) (r : Option (Reply × Server))
      : Type 0 where
    pub after : Server
    pub returns : r ≡ some (reply, after)
    pub moved :
        (e : ℕ) (j : Bytes)
        → entry after e j ≡ (
            if same_place d src e j
            then (none, none)
            else if same_place d dst e j
            then (some o, moved_time (time_of (lookup src ((swept s d src).db d).expires)))
            else entry s e j)
    pub valid : IsValid after

  -- The entries that renaming leaves are valid.
  renamed-IsValid :
      (o : Value) (t : Option ℤ) (s after : Server)
      → IsValid s
      → ((e : ℕ) (j : Bytes)
          → entry after e j ≡ (
              if same_place d src e j
              then (none, none)
              else if same_place d dst e j
              then (some o, t)
              else entry s e j))
      → IsValid after
  renamed-IsValid o t s after v moved e j timed = elim (Bool-cases (same_place d src e j)) [
    | inl from ↦
        let gone : entry after e j ≡ (none, none) = moved e j ∙ (rw from refl) in
        absurd (false≢true (sym (ap (λ x. is_some x.1) gone) ∙ timed))
    | inr other ↦ elim (Bool-cases (same_place d dst e j)) [
      | inl to ↦
          let there : entry after e j ≡ (some o, t) = moved e j ∙ (rw (other, to) refl) in
          ap (λ x. is_some x.0) there
      | inr neither ↦
          let kept : entry after e j ≡ entry s e j = moved e j ∙ (rw (other, neither) refl) in
          ap (λ x. is_some x.0) kept ∙ v e j (sym (ap (λ x. is_some x.1) kept) ∙ timed)
    ]
  ]

  -- The target with its value and time.
  abbrev timed : Value → ℤ → Server → Server
  timed o time t =
      if eqb_ℤ time (negsuc 0)
      then put_value d dst o t
      else put_time d dst time (put_value d dst o t)

  Changes-timed :
      (o : Value) (time : ℤ) (t : Server)
      → entry t d dst ≡ (none, none)
      → Changes t (timed o time t) d dst (some o, moved_time time)
  Changes-timed o time t free =
      let u = put_value d dst o t in
      let put : Changes t u d dst (some o, none) = λ e j.
        Changes-value d dst t o e j
        ∙ ap (λ (q : Option ℤ). if same_place d dst e j then (some o, q) else entry t e j)
            (ap (λ x. x.1) free) in
      elim (Bool-cases (eqb_ℤ time (negsuc 0))) [
        | inl unset ↦ rw unset put
        | inr set ↦ rw set (
            Changes-trans t u (put_time d dst time u) d dst (some o, none) _ put
              (λ e j.
                Changes-time d dst u time e j
                ∙ ap
                    (λ (q : Option Value).
                      if same_place d dst e j then (q, some time) else entry u e j)
                    (ap (λ x. x.0) (Changes-here t u d dst _ put))))
      ]

  time_set :
      (o : Value) (time : ℤ) (t : Server)
      → (if eqb_ℤ time (negsuc 0) then pure tt else set_expire d dst time) (put_value d dst o t)
        ≡ some (tt, timed o time t)
  time_set o time t = elim (Bool-cases (eqb_ℤ time (negsuc 0))) [
    | inl unset ↦ rw unset refl
    | inr set ↦ rw set (
        set_expire_lem d dst time (put_value d dst o t) (
          ap (λ x. is_some x.0)
            (Changes-here t (put_value d dst o t) d dst _ (Changes-value d dst t o))))
  ]

  -- The last part, on a server where the target is free.
  rename_to-Renamed :
      (nx : Bool) (o : Value) (time : ℤ) (s t : Server)
      → IsValid s
      → entry t d dst ≡ (none, none)
      → ((e : ℕ) (j : Bytes)
          → same_place d src e j ≡ false
          → same_place d dst e j ≡ false
          → entry t e j ≡ entry s e j)
      → time ≡ time_of (lookup src ((swept s d src).db d).expires)
      → Renamed o (if nx then one else ok) s (rename_to nx d src dst o time t)
  unfolding rename_to set_db signal_modified_key add_dirty
  rename_to-Renamed nx o time s t v free same e =
      let w = timed o time t in
      let after =
        add_dirty 1 (signal_modified_key d dst (signal_modified_key d src (drop_key d src w))) in
      let moved = λ (e : ℕ) (j : Bytes).
        places e j (Changes-without d src w e j) (Changes-timed o time t free e j) (same e j) in
      let moved' =
        subst
          (λ time'.
            (e : ℕ) (j : Bytes)
            → entry after e j ≡ (
                if same_place d src e j
                then (none, none)
                else if same_place d dst e j
                then (some o, moved_time time')
                else entry s e j))
          e moved in
      record {
        after = after;
        returns =
            bind_run (db_add d dst o) _ t (db_add_lem d dst o t (ap (λ x. is_some x.0) free))
            ∙ bind_run (if eqb_ℤ time (negsuc 0) then pure tt else set_expire d dst time) _
                (put_value d dst o t) (time_set o time t)
            ∙ bind_run (db_delete d src) _ w (db_delete_lem d src w);
        moved = moved';
        valid = renamed-IsValid o _ s after v moved';
      }
    where
      places :
          {x y z : Entry} (e : ℕ) (j : Bytes)
          → x ≡ (if same_place d src e j then (none, none) else y)
          → y ≡ (if same_place d dst e j then (some o, moved_time time) else z)
          → (same_place d src e j ≡ false → same_place d dst e j ≡ false → z ≡ entry s e j)
          → x ≡ (
              if same_place d src e j
              then (none, none)
              else if same_place d dst e j
              then (some o, moved_time time)
              else entry s e j)
      places e j p q r = elim (Bool-cases (same_place d src e j)) [
        | inl a ↦ rw a (rw a at p)
        | inr a ↦ elim (Bool-cases (same_place d dst e j)) [
          | inl b ↦ rw (a, b) ((rw a at p) ∙ (rw b at q))
          | inr b ↦ rw (a, b) ((rw a at p) ∙ (rw b at q) ∙ r a b)
        ]
      ]

  -- The target once it is free.
  abbrev freed : Bool → Server → Server
  freed old t = if old then drop_key d dst t else t

  freeing :
      (old : Bool) (t : Server)
      → there d dst t ≡ old
      → (b : Bool) × ((if old then db_delete d dst else pure false) t ≡ some (b, freed old t))
  freeing true t h = (_, db_delete_lem d dst t)
  freeing false t h = (_, refl)

  freed-free :
      (old : Bool) (t : Server)
      → IsValid t
      → there d dst t ≡ old
      → entry (freed old t) d dst ≡ (none, none)
  freed-free true t v h =
      Changes-here t (drop_key d dst t) d dst (none, none) (Changes-without d dst t)
  freed-free false t v h =
      by_entry (lookup dst (t.db d).dict) (lookup dst (t.db d).expires) h (v d dst)
    where
      by_entry :
          (o : Option Value) (q : Option ℤ)
          → is_some o ≡ false
          → (is_some q ≡ true → is_some o ≡ true)
          → ◌≡◌ {A = Entry} (o, q) (none, none)
      by_entry none none h g = refl
      by_entry none (some x) h g = absurd (false≢true (g refl))
      by_entry (some o) q h g = absurd (false≢true (sym h))

  freed-same :
      (old : Bool) (t : Server) (e : ℕ) (j : Bytes)
      → same_place d dst e j ≡ false
      → entry (freed old t) e j ≡ entry t e j
  freed-same true t e j h = Changes-without d dst t e j ∙ (rw h refl)
  freed-same false t e j h = refl

  -- RENAME and RENAMENX on a valid server, for a source that is found and another name: unless it is
  -- RENAMENX and the target is found too, the target has the source's value and time and none of its
  -- own, the source is gone with its time, and no other key changes. No assertion fails.
  pub rename_generic-Renamed :
      (nx : Bool) (o : Value) (s : Server)
      → IsValid s
      → visible s d src ≡ some o
      → (is_some (visible s d dst) && nx) ≡ false
      → Renamed o (if nx then one else ok) s (rename_generic nx d src dst s)
  unfolding rename_generic read_expire
  rename_generic-Renamed nx o s v held may =
      let s₁ = swept s d src in
      let s₂ = swept s₁ d dst in
      let v₁ = swept-IsValid d src s v in
      let v₂ = swept-IsValid d dst s₁ v₁ in
      let time = time_of (lookup src (s₁.db d).expires) in
      let old = is_some (visible s d dst) in
      let same_old = visible-swept_other s in
      let present : there d dst s₂ ≡ old = there-swept d dst s₁ ∙ ap is_some same_old in
      let (b, cleared) = freeing old s₂ present in
      let kept : (e : ℕ) (j : Bytes)
          → same_place d src e j ≡ false
          → same_place d dst e j ≡ false
          → entry (freed old s₂) e j ≡ entry s e j =
        λ e j a c.
          freed-same old s₂ e j c
          ∙ (Changes-swept d dst s₁ e j ∙ (rw c refl))
          ∙ (Changes-swept d src s e j ∙ (rw a refl)) in
      let asked : read_expire d src s₁ ≡ some (time, s₁) =
        rw (get_expire_lem d src s₁ v₁, read_expire) refl in
      let ran : rename_generic nx d src dst s ≡ rename_to nx d src dst o time (freed old s₂) =
        rw (differ, rename_generic)
          (bind_run (lookup_key_write d src) _ s (lookup_key_write_lem d src s v)
            ∙ (rw held (
                bind_run (read_expire d src) _ s₁ asked
                ∙ bind_run (lookup_key_write d dst) _ s₁ (lookup_key_write_lem d dst s₁ v₁)
                ∙ (rw (same_old, may)
                    (bind_run (if old then db_delete d dst else pure false) _ s₂ cleared))))) in
      subst (Renamed o (if nx then one else ok) s) (sym ran)
        (rename_to-Renamed nx o time s (freed old s₂) v (freed-free old s₂ v₂ present) kept refl)
