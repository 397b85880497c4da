-- ===== src/Keyspace.antt =====
-- redis-stable/src/db.c: the databases, their keys and when these expire. The dictionaries of a
-- database are taken by their promise. A function that may meet a failed assertion returns an option,
-- none for the failure; the clock stands still while a function runs.
pub mod Map
pub mod Expiry
pub mod Entries
pub mod Commands
pub mod Writes
pub mod Rename
pub mod Times
pub mod Samples
mod Tests
use mmog.Common.{
  ℕ, zero, suc, ◌+◌, ◌≡◌, ◌&&◌, ◌||◌, not, Bool, true, false, Option, none, some, List, [], ◌∷◌,
  ◌++◌, length, ltb, ◌==◌, if◌then◌else◌, ℤ, pos, negsuc, ltb_ℤ, leb_ℤ,
}
use mmog.Common.Bytes.{Bytes}
use mmog.Rdb.{Object}
use mmog.Keyspace.Map.{lookup, insert, remove}

-- The types of objects. What an aggregate holds is not looked into here: it is a number.
pub data Kind : Type 0 where
  list : Kind
  set : Kind
  sorted_set : Kind
  hash : Kind

pub data Value : Type 0 where
  string : Object → Value
  aggregate : Kind → ℕ → Value

-- `redisDb`
pub record Db : Type 0 where
  pub dict : List (Bytes × Value)
  pub expires : List (Bytes × ℤ)

-- The part of `redisServer` that the key space uses. `aof` and `slaves` are the deletions that were
-- sent there, and `modified` the keys that were signalled to be, each with its database; `flushed` are the
-- databases that were, none for all. `rewritten` is what the command that runs has put in the place of
-- its own arguments, for the log and the slaves. The time of an object's last access is left out.
pub record Server : Type 0 where
  pub db : ℕ → Db
  pub dbnum : ℕ
  pub loading : Bool
  pub masterhost : Bool
  pub mstime : ℤ
  pub dirty : ℕ
  pub stat_keyspace_hits : ℕ
  pub stat_keyspace_misses : ℕ
  pub stat_expiredkeys : ℕ
  pub aof_on : Bool
  pub aof : List (ℕ × Bytes)
  pub has_slaves : Bool
  pub slaves : List (ℕ × Bytes)
  pub modified : List (ℕ × Bytes)
  pub flushed : List (Option ℕ)
  pub rewritten : Option (List Bytes)

abbrev pub M : Type 0 → Type 0
M A = Server → Option (A × Server)

infixl 5 ◌>>=◌ ◌>>◌
abbrev pub ◌>>=◌ : {A B : Type 0} → M A → (A → M B) → M B
◌>>=◌ m f s = elim (m s) [ none ↦ none | some p ↦ f p.0 p.1 ]

abbrev pub ◌>>◌ : {B : Type 0} → M Unit → M B → M B
m >> n = m >>= λ _. n

abbrev pub pure : {A : Type 0} → A → M A
pure a s = some (a, s)

abbrev pub update : (Server → Server) → M Unit
update f s = some (tt, f s)

abbrev pub fail : {A : Type 0} → M A
fail s = none

abbrev pub is_some : {A : Type 0} → Option A → Bool
is_some none = false
is_some (some a) = true

unfoldable pub set_db : ℕ → Db → Server → Server
set_db d x s = record s { db = λ q. if q == d then x else s.db q }

-- `signalModifiedKey`
unfoldable pub signal_modified_key : ℕ → Bytes → Server → Server
signal_modified_key d key s = record s { modified = (d, key) ∷ s.modified }

unfoldable pub add_dirty : ℕ → Server → Server
add_dirty n s = record s { dirty = s.dirty + n }

-- `lookupKey`
unfoldable pub lookup_key : ℕ → Bytes → Server → Option Value
lookup_key d key s = lookup key (s.db d).dict

-- `dbExists`
unfoldable pub db_exists : ℕ → Bytes → Server → Bool
unfolding lookup_key
db_exists d key s = is_some (lookup_key d key s)

-- `dbAdd`
unfoldable pub db_add : ℕ → Bytes → Value → M Unit
db_add d key val s =
    let x = s.db d in
    if is_some (lookup key x.dict)
    then none
    else some (tt, set_db d (record x { dict = insert key val x.dict }) s)

-- `dbOverwrite`
unfoldable pub db_overwrite : ℕ → Bytes → Value → M Unit
db_overwrite d key val s =
    let x = s.db d in
    if is_some (lookup key x.dict)
    then some (tt, set_db d (record x { dict = insert key val x.dict }) s)
    else none

-- `dbDelete`
unfoldable pub db_delete : ℕ → Bytes → M Bool
db_delete d key s =
    let x = s.db d in
    let expires = if ltb 0 (length x.expires) then remove key x.expires else x.expires in
    some (
      is_some (lookup key x.dict),
      set_db d (record { dict = remove key x.dict; expires = expires }) s,
    )

-- `removeExpire`
unfoldable pub remove_expire : ℕ → Bytes → M Bool
remove_expire d key s =
    let x = s.db d in
    if is_some (lookup key x.dict)
    then some
        (is_some (lookup key x.expires), set_db d (record x { expires = remove key x.expires }) s)
    else none

-- `setExpire`
unfoldable pub set_expire : ℕ → Bytes → ℤ → M Unit
set_expire d key time s =
    let x = s.db d in
    if is_some (lookup key x.dict)
    then some (tt, set_db d (record x { expires = insert key time x.expires }) s)
    else none

-- `getExpire`
unfoldable pub get_expire : ℕ → Bytes → Server → Option ℤ
get_expire d key s =
    let x = s.db d in
    if length x.expires == 0 then some (negsuc 0) else elim (lookup key x.expires) [
      | none ↦ some (negsuc 0)
      | some t ↦ if is_some (lookup key x.dict) then some t else none
    ]

-- `propagateExpire`
unfoldable pub propagate_expire : ℕ → Bytes → Server → Server
propagate_expire d key s = record s {
  aof = if s.aof_on then (d, key) ∷ s.aof else s.aof;
  slaves = if s.has_slaves then (d, key) ∷ s.slaves else s.slaves;
}

unfoldable pub count_expired : Server → Server
count_expired s = record s { stat_expiredkeys = s.stat_expiredkeys + 1 }

-- `expireIfNeeded`
unfoldable pub expire_if_needed : ℕ → Bytes → M Bool
expire_if_needed d key s = elim (get_expire d key s) [
  | none ↦ none
  | some t ↦
      if ltb_ℤ t (pos 0)
      then some (false, s)
      else if s.loading
      then some (false, s)
      else if s.masterhost
      then some (ltb_ℤ t s.mstime, s)
      else if leb_ℤ s.mstime t
      then some (false, s)
      else db_delete d key (propagate_expire d key (count_expired s))
]

unfoldable pub count_access : Bool → Server → Server
count_access true s = record s { stat_keyspace_hits = s.stat_keyspace_hits + 1 }
count_access false s = record s { stat_keyspace_misses = s.stat_keyspace_misses + 1 }

-- `lookupKeyRead`
unfoldable pub lookup_key_read : ℕ → Bytes → M (Option Value)
lookup_key_read d key = do
  expire_if_needed d key >>= λ _.
      (λ s. let val = lookup_key d key s in some (val, count_access (is_some val) s))

-- `lookupKeyWrite`
unfoldable pub lookup_key_write : ℕ → Bytes → M (Option Value)
lookup_key_write d key = expire_if_needed d key >>= λ _. (λ s. some (lookup_key d key s, s))

-- `setKey`
unfoldable pub set_key : ℕ → Bytes → Value → M Unit
set_key d key val = do
  old ← lookup_key_write d key
  (if is_some old then db_overwrite d key val else db_add d key val)
  _ ← remove_expire d key
  update (signal_modified_key d key)
