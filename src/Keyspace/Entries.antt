-- ===== src/Keyspace/Entries.antt =====
-- The key space as a map: under each key of each database a value and a time, or neither.
use mmog.Common.{
  ℕ, ◌≡◌, refl, sym, ap, ◌∙◌, ◌⊎◌, inl, inr, arith, ◌&&◌, not, Bool, true, false, Option, none,
  some, List, ◌==◌, if◌then◌else◌, ℤ, Bool-cases, ==_iff, false≢true,
}
use mmog.Common.Bytes.{Bytes, equal_strings, equal_strings_iff}
use mmog.Keyspace.{
  M, ◌>>=◌, Value, Db, Server, is_some, set_db, lookup_key, expire_if_needed, count_access,
  propagate_expire, count_expired, lookup_key_read, lookup_key_write,
}
use mmog.Keyspace.Map.{lookup, insert, remove, lookup-insert, lookup-remove}
use mmog.Keyspace.Expiry.{IsValid, past, without, swept, visible, expire_if_needed_lem}

-- The first step of a block, where it succeeds.
pub bind_run :
    {A B : Type 0} (m : M A) (f : A → M B) (s : Server) {a : A} {t : Server}
    → m s ≡ some (a, t)
    → (m >>= f) s ≡ f a t
bind_run m f s e = rw (e, ◌>>=◌) refl

abbrev pub Entry : Type 0
Entry = Option Value × Option ℤ

abbrev pub entry : Server → ℕ → Bytes → Entry
entry s d key = (lookup key (s.db d).dict, lookup key (s.db d).expires)

abbrev pub same_place : ℕ → Bytes → ℕ → Bytes → Bool
same_place d key e j = e == d && equal_strings key j

-- The second server has `x` under the key of database `d`, and is like the first elsewhere.
abbrev pub Changes : Server → Server → ℕ → Bytes → Entry → Type 0
Changes s s' d key x =
    (e : ℕ) (j : Bytes) → entry s' e j ≡ (if same_place d key e j then x else entry s e j)

pub same_place_here : (d : ℕ) (key : Bytes) → same_place d key d key ≡ true
same_place_here d key = ground (arith, equal_strings_iff key key)

pub Changes-here :
    (s s' : Server) (d : ℕ) (key : Bytes) (x : Entry) → Changes s s' d key x → entry s' d key ≡ x
Changes-here s s' d key x c = c d key ∙ (rw (same_place_here d key) refl)

pub Changes-trans :
    (s t u : Server) (d : ℕ) (key : Bytes) (x y : Entry)
    → Changes s t d key x
    → Changes t u d key y
    → Changes s u d key y
Changes-trans s t u d key x y c c' e j = c' e j ∙ elim (Bool-cases (same_place d key e j)) [
  | inl same ↦ rw same refl
  | inr other ↦ rw other (c e j ∙ (rw other refl))
]

-- An entry with a time has a value.
abbrev pub IsBacked : Entry → Type 0
IsBacked x = is_some x.1 ≡ true → is_some x.0 ≡ true

pub Changes-IsValid :
    (s s' : Server) (d : ℕ) (key : Bytes) (x : Entry)
    → IsValid s
    → Changes s s' d key x
    → IsBacked x
    → IsValid s'
Changes-IsValid s s' d key x v c h e j timed = elim (Bool-cases (same_place d key e j)) [
  | inl same ↦
      let here : entry s' e j ≡ x = c e j ∙ (rw same refl) in
      ap (λ y. is_some (y.0)) here ∙ h (sym (ap (λ y. is_some (y.1)) here) ∙ timed)
  | inr other ↦
      let there : entry s' e j ≡ entry s e j = c e j ∙ (rw other refl) in
      ap (λ y. is_some (y.0)) there ∙ v e j (sym (ap (λ y. is_some (y.1)) there) ∙ timed)
]

-- A dictionary that is left alone, as one that is written to.
unwritten :
    {V : Type 0} (key : Bytes) (m : List (Bytes × V)) (j : Bytes)
    → lookup j m ≡ (if equal_strings key j then lookup key m else lookup j m)
unwritten key m j = elim (Bool-cases (equal_strings key j)) [
  | inl e ↦ rw (e, (equal_strings_iff key j).0 e) refl
  | inr e ↦ rw e refl
]

-- A write to a database, from what it does to the two dictionaries.
pub Changes-set_db :
    (d : ℕ) (key : Bytes) (x : Db) (s : Server) (v : Option Value) (t : Option ℤ)
    → ((j : Bytes) → lookup j x.dict ≡ (if equal_strings key j then v else lookup j (s.db d).dict))
    → ((j : Bytes)
        → lookup j x.expires ≡ (if equal_strings key j then t else lookup j (s.db d).expires))
    → Changes s (set_db d x s) d key (v, t)
unfolding set_db
Changes-set_db d key x s v t h g e j = elim (Bool-cases (e == d)) [
  | inl same ↦ rw (same, (==_iff e d).0 same, h j, g j) (both (Bool-cases (equal_strings key j)))
  | inr other ↦ rw other refl
]
  where
    both :
        (equal_strings key j ≡ true) ⊎ (equal_strings key j ≡ false)
        → ◌≡◌ {A = Entry}
            (
              if equal_strings key j then v else lookup j (s.db d).dict,
              if equal_strings key j then t else lookup j (s.db d).expires,
            )
            (if equal_strings key j then (v, t) else entry s d j)
    both (inl e) = rw e refl
    both (inr e) = rw e refl

module _ (d : ℕ) (key : Bytes) (s : Server) where
  pub Changes-value :
      (val : Value)
      → Changes s
          (set_db d (record (s.db d) { dict = insert key val (s.db d).dict }) s)
          d
          key
          (some val, lookup key (s.db d).expires)
  Changes-value val =
      Changes-set_db d key (record (s.db d) { dict = insert key val (s.db d).dict }) s _ _
        (λ j. lookup-insert key j val (s.db d).dict) (unwritten key (s.db d).expires)

  pub Changes-time :
      (t : ℤ)
      → Changes s
          (set_db d (record (s.db d) { expires = insert key t (s.db d).expires }) s)
          d
          key
          (lookup key (s.db d).dict, some t)
  Changes-time t =
      Changes-set_db d key (record (s.db d) { expires = insert key t (s.db d).expires }) s _ _
        (unwritten key (s.db d).dict) (λ j. lookup-insert key j t (s.db d).expires)

  pub Changes-no_time :
      Changes s
        (set_db d (record (s.db d) { expires = remove key (s.db d).expires }) s)
        d
        key
        (lookup key (s.db d).dict, none)
  Changes-no_time =
      Changes-set_db d key (record (s.db d) { expires = remove key (s.db d).expires }) s _ _
        (unwritten key (s.db d).dict) (λ j. lookup-remove key j (s.db d).expires)

  pub Changes-without : Changes s (set_db d (without key (s.db d)) s) d key (none, none)
  Changes-without =
      Changes-set_db d key (without key (s.db d)) s _ _ (λ j. lookup-remove key j (s.db d).dict)
        (λ j. lookup-remove key j (s.db d).expires)

  pub Changes-same : Changes s s d key (entry s d key)
  Changes-same e j = elim (Bool-cases (same_place d key e j)) [
    | inl same ↦ rw same (at_place e j same)
    | inr other ↦ rw other refl
  ]
    where
      at_place : (e : ℕ) (j : Bytes) → same_place d key e j ≡ true → entry s e j ≡ entry s d key
      at_place e j h =
          let same_db : e ≡ d = ground arith in
          let same_key : equal_strings key j ≡ true = ground arith in
          rw (same_db, (equal_strings_iff key j).0 same_key) refl

  -- What a lookup leaves under the key.
  abbrev pub swept_entry : Entry
  swept_entry = if past s d key && not s.masterhost then (none, none) else entry s d key

  pub Changes-swept : Changes s (swept s d key) d key swept_entry
  unfolding propagate_expire count_expired
  Changes-swept = elim (Bool-cases (past s d key && not s.masterhost)) [
    | inl gone ↦ rw gone (λ e j.
        Changes-set_db d key (without key (s.db d)) (propagate_expire d key (count_expired s)) none
          none (λ j. lookup-remove key j (s.db d).dict) (λ j. lookup-remove key j (s.db d).expires)
          e j)
    | inr stays ↦ rw stays Changes-same
  ]

  pub swept_entry-IsBacked : IsValid s → IsBacked swept_entry
  swept_entry-IsBacked v h = elim (Bool-cases (past s d key && not s.masterhost)) [
    | inl gone ↦ absurd (false≢true (rw gone at h))
    | inr stays ↦ rw stays (v d key (rw stays at h))
  ]

  pub swept-IsValid : IsValid s → IsValid (swept s d key)
  swept-IsValid v =
      Changes-IsValid s (swept s d key) d key swept_entry v Changes-swept (swept_entry-IsBacked v)

  pub lookup_key-swept : lookup_key d key (swept s d key) ≡ visible s d key
  unfolding lookup_key
  lookup_key-swept =
      ap (λ x. x.0) (Changes-here s (swept s d key) d key swept_entry Changes-swept) ∙ value
    where
      value : swept_entry.0 ≡ visible s d key
      value = elim (Bool-cases (past s d key && not s.masterhost)) [
        | inl gone ↦ rw gone refl
        | inr stays ↦ rw stays refl
      ]

  pub lookup_key_write_lem :
      IsValid s → lookup_key_write d key s ≡ some (visible s d key, swept s d key)
  unfolding lookup_key_write
  lookup_key_write_lem v =
      bind_run (expire_if_needed d key) _ s (expire_if_needed_lem d key s v)
      ∙ ap (λ (o : Option Value). some (o, swept s d key)) lookup_key-swept

  pub lookup_key_read_lem :
      IsValid s
      → lookup_key_read d key s
        ≡ some (visible s d key, count_access (is_some (visible s d key)) (swept s d key))
  unfolding lookup_key_read
  lookup_key_read_lem v =
      bind_run (expire_if_needed d key) _ s (expire_if_needed_lem d key s v)
      ∙ ap (λ (o : Option Value). some (o, count_access (is_some o) (swept s d key)))
          lookup_key-swept

  -- A second look finds what the first one left.
  pub swept-swept : swept (swept s d key) d key ≡ swept s d key
  swept-swept = elim (Bool-cases (past s d key && not s.masterhost)) [
    | inl gone ↦
        let no_time : lookup key ((swept s d key).db d).expires ≡ none =
          ap (λ x. x.1) (Changes-here s (swept s d key) d key swept_entry Changes-swept)
          ∙ (rw gone refl) in
        not_past (swept s d key) no_time
    | inr stays ↦ let same : swept s d key ≡ s = rw stays refl in ap (λ t. swept t d key) same
  ]
    where
      not_past : (t : Server) → lookup key (t.db d).expires ≡ none → swept t d key ≡ t
      not_past t e = rw e refl
