-- ===== src/Keyspace/Expiry.antt =====
-- Keys that are past their time: what a lookup finds, and what it leaves.
use mmog.Common.{
  ℕ, ◌≡◌, refl, ap, inl, inr, arith, ◌&&◌, not, Bool, true, false, Option, none, some, List, [],
  ◌∷◌, length, ltb, ◌==◌, if◌then◌else◌, ℤ, pos, negsuc, ltb_ℤ, leb_ℤ, Bool-cases,
}
use mmog.Common.Bytes.{Bytes}
use mmog.Keyspace.{
  Value, Db, Server, is_some, set_db, db_delete, get_expire, propagate_expire, count_expired,
  expire_if_needed,
}
use mmog.Keyspace.Map.{lookup, remove}

-- Only a key that is there can have a time.
abbrev pub Backed : Db → Type 0
Backed x = (k : Bytes) → is_some (lookup k x.expires) ≡ true → is_some (lookup k x.dict) ≡ true

abbrev pub IsValid : Server → Type 0
IsValid s = (d : ℕ) → Backed (s.db d)

-- The time of the key has come, and a master would delete it.
abbrev pub past : Server → ℕ → Bytes → Bool
past s d key =
    elim (lookup key (s.db d).expires) [
      | none ↦ false
      | some t ↦ leb_ℤ (pos 0) t && ltb_ℤ t s.mstime
    ]
    && not s.loading

-- The database without the key.
abbrev pub without : Bytes → Db → Db
without key x = record { dict = remove key x.dict; expires = remove key x.expires }

-- What is left of a server where a key is looked at.
abbrev pub swept : Server → ℕ → Bytes → Server
swept s d key =
    if past s d key && not s.masterhost
    then set_db d (without key (s.db d)) (propagate_expire d key (count_expired s))
    else s

-- What a lookup finds.
abbrev pub visible : Server → ℕ → Bytes → Option Value
visible s d key = if past s d key && not s.masterhost then none else lookup key (s.db d).dict

remove_none :
    {V : Type 0} (k : Bytes) (m : List (Bytes × V)) → ltb 0 (length m) ≡ false → m ≡ remove k m
unfolding remove
remove_none k [] h = refl
remove_none k (p ∷ m) h = absurd (ground arith)

pub db_delete_lem :
    (d : ℕ) (key : Bytes) (s : Server)
    → db_delete d key s
      ≡ some (is_some (lookup key (s.db d).dict), set_db d (without key (s.db d)) s)
unfolding db_delete
db_delete_lem d key s = elim (Bool-cases (ltb 0 (length (s.db d).expires))) [
  | inl e ↦ rw e refl
  | inr e ↦ rw e (
      ap
        (λ m. some (
          is_some (lookup key (s.db d).dict),
          set_db d (record { dict = remove key (s.db d).dict; expires = m }) s,
        ))
        (remove_none key (s.db d).expires e))
]

lookup-none :
    {V : Type 0} (k : Bytes) (m : List (Bytes × V)) → (length m == 0) ≡ true → lookup k m ≡ none
unfolding lookup
lookup-none k [] h = refl
lookup-none k (p ∷ m) h = absurd (ground arith)

-- A key without a time has the time -1.
abbrev pub time_of : Option ℤ → ℤ
time_of none = negsuc 0
time_of (some t) = t

pub get_expire_lem :
    (d : ℕ) (key : Bytes) (s : Server)
    → IsValid s
    → get_expire d key s ≡ some (time_of (lookup key (s.db d).expires))
unfolding get_expire
get_expire_lem d key s v = elim (Bool-cases (length (s.db d).expires == 0)) [
  | inl e ↦ rw (e, lookup-none key (s.db d).expires e) refl
  | inr e ↦ rw e (by_time (lookup key (s.db d).expires) (v d key))
]
  where
    by_time :
        (o : Option ℤ)
        → (is_some o ≡ true → is_some (lookup key (s.db d).dict) ≡ true)
        → (elim o as (λ _. Option ℤ) [
          | none ↦ some (negsuc 0)
          | some t ↦ if is_some (lookup key (s.db d).dict) then some t else none
        ])
          ≡ some (time_of o)
    by_time none h = refl
    by_time (some t) h = rw (h refl) refl

-- The tests of `expireIfNeeded`, for the time of the key.
expiry_tests :
    (o : Option ℤ) (s gone : Server) (loading slave : Bool) (now : ℤ)
    (delete : Option (Bool × Server)) (there : Bool)
    → delete ≡ some (there, gone)
    → (is_some o ≡ true → there ≡ true)
    → (if ltb_ℤ (time_of o) (pos 0)
        then some (false, s)
        else if loading
        then some (false, s)
        else if slave
        then some (ltb_ℤ (time_of o) now, s)
        else if leb_ℤ now (time_of o)
        then some (false, s)
        else delete)
      ≡ (let late =
            elim o as (λ _. Bool) [ none ↦ false | some t ↦ leb_ℤ (pos 0) t && ltb_ℤ t now ]
            && not loading in
          some (late, if late && not slave then gone else s))
expiry_tests none s gone loading slave now delete there e h = ground arith
expiry_tests (some t) s gone true slave now delete there e h = ground arith
expiry_tests (some t) s gone false true now delete there e h = ground arith
expiry_tests (some (pos n)) s gone false false (pos k) delete there e h = ground (arith, h refl)
expiry_tests (some (pos n)) s gone false false (negsuc k) delete there e h = ground (arith, h refl)
expiry_tests (some (negsuc n)) s gone false false now delete there e h = ground (arith, h refl)

pub expire_if_needed_lem :
    (d : ℕ) (key : Bytes) (s : Server)
    → IsValid s
    → expire_if_needed d key s ≡ some (past s d key, swept s d key)
unfolding expire_if_needed propagate_expire count_expired
expire_if_needed_lem d key s v =
    rw (get_expire_lem d key s v, expire_if_needed)
      (expiry_tests (lookup key (s.db d).expires) s _ s.loading s.masterhost s.mstime _ _
        (db_delete_lem d key (propagate_expire d key (count_expired s))) (v d key))
