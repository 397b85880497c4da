-- ===== src/Keyspace/Times.antt =====
-- EXPIRE and its kin, and what a key's time does to the lookups after it.
use mmog.Common.{
  ℕ, ◌≡◌, refl, ap, ◌∙◌, inl, inr, ◌&&◌, not, Bool, true, false, Option, none, some, List, [], ◌∷◌,
  if◌then◌else◌, ℤ, pos, Bool-cases, false≢true, leb_ℤ,
}
use mmog.Common.Bytes.{Bytes}
use mmog.Rdb.{raw}
use mmog.Objects.{add64, mul64, Strtoll, get_long_long}
use mmog.Keyspace.{
  Value, Db, Server, is_some, set_db, signal_modified_key, add_dirty, db_delete, set_expire,
  propagate_expire, count_expired, count_access, lookup_key_read,
}
use mmog.Keyspace.Map.{lookup}
use mmog.Keyspace.Expiry.{IsValid, past, without, swept, visible, db_delete_lem}
use mmog.Keyspace.Entries.{
  bind_run, Entry, entry, same_place, Changes, Changes-IsValid, Changes-time, Changes-without,
  swept_entry, swept_entry-IsBacked, Changes-swept, lookup_key_read_lem,
}
use mmog.Keyspace.Writes.{put_time, drop_key, there, set_expire_lem}
use mmog.Keyspace.Commands.{
  rewrite_command, del_text, Reply, one, expire_now, expire_later, expire_at, expire_generic,
}

module _ (d : ℕ) (key : Bytes) where
  -- What a look at a key for reading gives and leaves.
  pub record LookedUp (s : Server) (r : Option (Option Value × Server)) : Type 0 where
    pub after : Server
    pub returns : r ≡ some (visible s d key, after)
    pub changes : Changes s after d key (swept_entry d key s)
    pub fed_aof :
        after.aof
        ≡ (if (past s d key && not s.masterhost) && s.aof_on then (d, key) ∷ s.aof else s.aof)
    pub fed_slaves : after.slaves ≡ (
        if (past s d key && not s.masterhost) && s.has_slaves
        then (d, key) ∷ s.slaves
        else s.slaves)
    pub valid : IsValid after

  -- The counters of hits and misses are apart from everything else.
  counted :
      {A : Type 0} (f : Server → A)
      → ((t : Server) → f (count_access true t) ≡ f t)
      → ((t : Server) → f (count_access false t) ≡ f t)
      → (b : Bool) (t : Server) → f (count_access b t) ≡ f t
  counted f yes_hit no_hit true t = yes_hit t
  counted f yes_hit no_hit false t = no_hit t

  Changes-count :
      (s t : Server) (b : Bool) (x : Entry)
      → Changes s t d key x
      → Changes s (count_access b t) d key x
  unfolding count_access
  Changes-count s t true x c = c
  Changes-count s t false x c = c

  -- What the two streams are fed.
  fed_to :
      (f : Server → List (ℕ × Bytes)) (s : Server) (on : Bool) (old : List (ℕ × Bytes))
      → ((x : Db)
          → f (set_db d x (propagate_expire d key (count_expired s)))
            ≡ (if on then (d, key) ∷ old else old))
      → f s ≡ old
      → f (swept s d key)
        ≡ (if (past s d key && not s.masterhost) && on then (d, key) ∷ old else old)
  fed_to f s on old h e = elim (Bool-cases (past s d key && not s.masterhost)) [
    | inl gone ↦ rw gone (h (without key (s.db d)))
    | inr stays ↦ rw stays e
  ]

  -- `lookupKeyRead` on a valid server: a key that is past its time is not found on a master that is
  -- not loading, and deleted there with its time, and its deletion is sent once to the append-only
  -- file and to the slaves, where there are any; on a slave, while loading and for any other key the
  -- value is found and nothing is deleted. No other key changes, and no assertion fails.
  pub lookup_key_read-LookedUp : (s : Server) → IsValid s → LookedUp s (lookup_key_read d key s)
  unfolding count_access set_db propagate_expire count_expired
  lookup_key_read-LookedUp s v =
      let seen = is_some (visible s d key) in
      let after = count_access seen (swept s d key) in
      let changes : Changes s after d key (swept_entry d key s) =
        Changes-count s (swept s d key) seen (swept_entry d key s) (Changes-swept d key s) in
      record {
        after = after;
        returns = lookup_key_read_lem d key s v;
        changes = changes;
        fed_aof =
            counted (λ t. t.aof) (λ t. refl) (λ t. refl) seen (swept s d key)
            ∙ fed_to (λ t. t.aof) s s.aof_on s.aof (λ x. refl) refl;
        fed_slaves =
            counted (λ t. t.slaves) (λ t. refl) (λ t. refl) seen (swept s d key)
            ∙ fed_to (λ t. t.slaves) s s.has_slaves s.slaves (λ x. refl) refl;
        valid =
            Changes-IsValid s after d key (swept_entry d key s) v changes
              (swept_entry-IsBacked d key s v);
      }

  -- A time that has come is carried out at once by a master that is not loading.
  abbrev pub at_once : Server → ℤ → Bool
  at_once s time = leb_ℤ time s.mstime && (not s.loading && not s.masterhost)

  -- The key has the time, or is deleted, which is replicated as DEL; it was signalled as modified.
  pub record Expires (time : ℤ) (o : Value) (s : Server) (r : Option (Reply × Server))
      : Type 0 where
    pub after : Server
    pub returns : r ≡ some (one, after)
    pub changes :
        Changes s after d key (if at_once s time then (none, none) else (some o, some time))
    pub signalled : after.modified ≡ (d, key) ∷ s.modified
    pub replicated :
        after.rewritten ≡ (if at_once s time then some (del_text ∷ key ∷ []) else s.rewritten)
    pub valid : IsValid after

  expire_at-Expires :
      (time : ℤ) (o : Value) (s : Server)
      → IsValid s
      → lookup key (s.db d).dict ≡ some o
      → Expires time o s (expire_at d key time s)
  unfolding expire_at expire_now expire_later rewrite_command add_dirty signal_modified_key set_db
  expire_at-Expires time o s v held = elim (Bool-cases (at_once s time)) [
    | inl now ↦
        let t = drop_key d key s in
        let there : is_some (lookup key (s.db d).dict) ≡ true = ap is_some held in
        rw now (record {
          after = signal_modified_key d key (rewrite_command (del_text ∷ key ∷ []) (add_dirty 1 t));
          returns = bind_run (db_delete d key) _ s (db_delete_lem d key s) ∙ (rw there refl);
          changes = rw now (Changes-without d key s);
          signalled = refl;
          replicated = rw now refl;
          valid =
              Changes-IsValid s t d key (none, none) v (Changes-without d key s)
                (λ h. absurd (false≢true h));
        })
    | inr later ↦
        let t = put_time d key time s in
        let changes : Changes s t d key (some o, some time) = λ e j.
          Changes-time d key s time e j
          ∙ ap (λ (q : Option Value). if same_place d key e j then (q, some time) else entry s e j)
              held in
        rw later (record {
          after = add_dirty 1 (signal_modified_key d key t);
          returns =
              bind_run (set_expire d key time) _ s (set_expire_lem d key time s (ap is_some held));
          changes = rw later changes;
          signalled = refl;
          replicated = rw later refl;
          valid = Changes-IsValid s t d key (some o, some time) v changes (λ h. refl);
        })
  ]

  -- What is found under a key that is not past its time is what is there, and the look left it.
  found_entry :
      (s : Server) (o : Value)
      → visible s d key ≡ some o
      → (lookup key (s.db d).dict ≡ some o) × (swept s d key ≡ s)
  found_entry s o held = by_flag (past s d key && not s.masterhost) refl
    where
      by_flag :
          (b : Bool)
          → (past s d key && not s.masterhost) ≡ b
          → (lookup key (s.db d).dict ≡ some o) × (swept s d key ≡ s)
      by_flag true e = absurd (cc (rw e at held))
      by_flag false e = (rw e at held, rw e refl)

  -- EXPIRE, PEXPIRE, EXPIREAT and PEXPIREAT on a valid server, for a number and a key that is found:
  -- the reply is 1 and the key is signalled as modified. A time that has come deletes the key on a
  -- master that is not loading, and DEL is replicated; otherwise the key keeps its value and has the time, also on a slave.
  -- No other key changes, and no assertion fails.
  pub expire_generic-Expires :
      (strtoll : Bytes → Strtoll) (param : Bytes) (n basetime : ℤ) (seconds : Bool) (o : Value)
      (s : Server)
      → IsValid s
      → visible s d key ≡ some o
      → get_long_long strtoll (raw param) ≡ some n
      → Expires
          (add64 (if seconds then mul64 n (pos 1000) else n) basetime)
          o
          s
          (expire_generic strtoll d key param basetime seconds s)
  unfolding expire_generic count_access
  expire_generic-Expires strtoll param n basetime seconds o s v held p =
      let (there, left) = found_entry s o held in
      let time = add64 (if seconds then mul64 n (pos 1000) else n) basetime in
      let t = count_access true s in
      let ran : expire_generic strtoll d key param basetime seconds s ≡ expire_at d key time t =
        rw (p, expire_generic)
          (bind_run (lookup_key_read d key) _ s (lookup_key_read_lem d key s v)
            ∙ (rw (held, left) refl)) in
      let e = expire_at-Expires time o t v there in
      record {
        after = e.after;
        returns = ran ∙ e.returns;
        changes = e.changes;
        signalled = e.signalled;
        replicated = e.replicated;
        valid = e.valid;
      }
