-- ===== src/Keyspace/Writes.antt =====
-- The writes to one key, where the assertions of redis-stable/src/db.c hold, and `setKey`.
use mmog.Common.{
  ℕ, ◌≡◌, refl, ap, ◌∙◌, inl, inr, ◌&&◌, not, Bool, true, false, Option, none, some, ◌∷◌,
  if◌then◌else◌, ℤ, Bool-cases, false≢true,
}
use mmog.Common.Bytes.{Bytes}
use mmog.Keyspace.{
  Value, Db, Server, is_some, set_db, signal_modified_key, lookup_key, db_add, db_overwrite,
  remove_expire, set_expire, propagate_expire, count_expired, lookup_key_write, set_key,
}
use mmog.Keyspace.Map.{lookup, insert, remove}
use mmog.Keyspace.Expiry.{IsValid, past, without, swept, visible}
use mmog.Keyspace.Entries.{
  bind_run, entry, same_place, Changes, Changes-trans, Changes-here, Changes-IsValid, Changes-value,
  Changes-no_time, swept_entry, Changes-swept, lookup_key-swept, lookup_key_write_lem,
}

module _ (d : ℕ) (key : Bytes) where
  abbrev pub put_value : Value → Server → Server
  put_value val s = set_db d (record (s.db d) { dict = insert key val (s.db d).dict }) s

  abbrev pub put_time : ℤ → Server → Server
  put_time t s = set_db d (record (s.db d) { expires = insert key t (s.db d).expires }) s

  abbrev pub drop_time : Server → Server
  drop_time s = set_db d (record (s.db d) { expires = remove key (s.db d).expires }) s

  abbrev pub drop_key : Server → Server
  drop_key s = set_db d (without key (s.db d)) s

  abbrev pub there : Server → Bool
  there s = is_some (lookup key (s.db d).dict)

  pub db_add_lem :
      (val : Value) (s : Server) → there s ≡ false → db_add d key val s ≡ some (tt, put_value val s)
  unfolding db_add
  db_add_lem val s h = rw h refl

  pub db_overwrite_lem :
      (val : Value) (s : Server)
      → there s ≡ true
      → db_overwrite d key val s ≡ some (tt, put_value val s)
  unfolding db_overwrite
  db_overwrite_lem val s h = rw h refl

  pub set_expire_lem :
      (t : ℤ) (s : Server) → there s ≡ true → set_expire d key t s ≡ some (tt, put_time t s)
  unfolding set_expire
  set_expire_lem t s h = rw h refl

  pub remove_expire_lem :
      (s : Server)
      → there s ≡ true
      → remove_expire d key s ≡ some (is_some (lookup key (s.db d).expires), drop_time s)
  unfolding remove_expire
  remove_expire_lem s h = rw h refl

  -- A write under a key that is new or old.
  pub put_lem :
      (val : Value) (s : Server) (old : Bool)
      → there s ≡ old
      → (if old then db_overwrite d key val else db_add d key val) s ≡ some (tt, put_value val s)
  put_lem val s true h = db_overwrite_lem val s h
  put_lem val s false h = db_add_lem val s h

  pub there-swept : (s : Server) → there (swept s d key) ≡ is_some (visible s d key)
  there-swept s = ap is_some (unfold lookup_key in lookup_key-swept d key s)

  pub there-put_value : (val : Value) (s : Server) → there (put_value val s) ≡ true
  there-put_value val s =
      ap (λ x. is_some x.0) (Changes-here s (put_value val s) d key _ (Changes-value d key s val))

  -- The server that `setKey` leaves.
  abbrev pub set_state : Value → Server → Server
  set_state val s = signal_modified_key d key (drop_time (put_value val (swept s d key)))

  pub set_key_lem :
      (val : Value) (s : Server) → IsValid s → set_key d key val s ≡ some (tt, set_state val s)
  unfolding set_key
  set_key_lem val s v =
      bind_run (lookup_key_write d key) _ s (lookup_key_write_lem d key s v)
      ∙ bind_run (if is_some (visible s d key) then db_overwrite d key val else db_add d key val) _
          (swept s d key) (put_lem val (swept s d key) (is_some (visible s d key)) (there-swept s))
      ∙ bind_run (remove_expire d key) _ (put_value val (swept s d key))
          (remove_expire_lem (put_value val (swept s d key)) (there-put_value val (swept s d key)))

  pub Changes-set_state :
      (val : Value) (s : Server) → Changes s (set_state val s) d key (some val, none)
  unfolding signal_modified_key
  Changes-set_state val s =
      let t = swept s d key in
      let u = put_value val t in
      Changes-trans s t (drop_time u) d key (swept_entry d key s) (some val, none)
        (Changes-swept d key s)
        (Changes-trans t u (drop_time u) d key _ (some val, none) (Changes-value d key t val)
          (λ e j.
            Changes-no_time d key u e j
            ∙ ap (λ (o : Option Value). if same_place d key e j then (o, none) else entry u e j)
                (value t)))
    where
      value : (t : Server) → lookup key ((put_value val t).db d).dict ≡ some val
      value t = ap (λ x. x.0) (Changes-here t (put_value val t) d key _ (Changes-value d key t val))

  -- What a look at a key leaves alone.
  pub swept-field :
      {A : Type 0} (f : Server → A) (s : Server)
      → ((x : Db) → f (set_db d x (propagate_expire d key (count_expired s))) ≡ f s)
      → f (swept s d key) ≡ f s
  swept-field f s h = elim (Bool-cases (past s d key && not s.masterhost)) [
    | inl gone ↦ rw gone (h (without key (s.db d)))
    | inr stays ↦ rw stays refl
  ]

  pub swept-modified : (s : Server) → (swept s d key).modified ≡ s.modified
  unfolding set_db propagate_expire count_expired
  swept-modified s = swept-field (λ t. t.modified) s (λ x. refl)

  pub swept-dirty : (s : Server) → (swept s d key).dirty ≡ s.dirty
  unfolding set_db propagate_expire count_expired
  swept-dirty s = swept-field (λ t. t.dirty) s (λ x. refl)

  pub swept-mstime : (s : Server) → (swept s d key).mstime ≡ s.mstime
  unfolding set_db propagate_expire count_expired
  swept-mstime s = swept-field (λ t. t.mstime) s (λ x. refl)

  -- What `setKey` does: the key has the value and no time, and was signalled as modified once.
  pub record KeySet (val : Value) (s s' : Server) : Type 0 where
    pub changes : Changes s s' d key (some val, none)
    pub signalled : s'.modified ≡ (d, key) ∷ s.modified
    pub clock : s'.mstime ≡ s.mstime
    pub valid : IsValid s'

  pub set_state-KeySet : (val : Value) (s : Server) → IsValid s → KeySet val s (set_state val s)
  unfolding signal_modified_key set_db
  set_state-KeySet val s v = record {
    changes = Changes-set_state val s;
    signalled = ap (λ l. (d, key) ∷ l) (swept-modified s);
    clock = swept-mstime s;
    valid =
        Changes-IsValid s (set_state val s) d key (some val, none) v (Changes-set_state val s)
          (λ h. absurd (false≢true h));
  }
