-- ===== src/Keyspace/Commands.antt =====
-- The commands of redis-stable/src/db.c. A handler is given the database that the client selected and
-- its arguments, and returns the reply.
use mmog.Common.{
  ℕ, zero, suc, ◌+◌, ◌-◌, ◌/◌, ◌&&◌, not, Bool, true, false, Option, none, some, List, [], ◌∷◌,
  length, ltb, ◌==◌, if◌then◌else◌, ℤ, pos, negsuc, ltb_ℤ, leb_ℤ, eqb_ℤ,
}
use mmog.Common.Bytes.{Bytes, equal_strings}
use mmog.Rdb.{raw}
use mmog.Objects.{add64, mul64, neg64, Strtoll, get_long_long}
use mmog.Keyspace.{
  Value, Db, Server, M, ◌>>=◌, ◌>>◌, pure, update, fail, is_some, set_db, signal_modified_key,
  add_dirty, db_exists, db_add, db_delete, remove_expire, set_expire, get_expire, expire_if_needed,
  lookup_key_read, lookup_key_write,
}
use mmog.Keyspace.Map.{lookup}

pub data Reply : Type 0 where
  ok : Reply
  nil : Reply
  number : ℤ → Reply
  bulk : Bytes → Reply
  bulks : List (Option Bytes) → Reply
  type_name : Option Value → Reply
  no_key : Reply
  same_object : Reply
  out_of_range : Reply
  not_integer : Reply
  invalid_expire : Reply
  wrong_type : Reply
  too_long : Reply
  overflow : Reply
  wrong_arguments : Reply
  syntax : Reply

abbrev pub one : Reply
one = number (pos 1)

abbrev pub zero_reply : Reply
zero_reply = number (pos 0)

-- The loop of `delCommand`.
unfoldable pub del_keys : ℕ → List Bytes → ℕ → M ℕ
del_keys d [] deleted = pure deleted
del_keys d (key ∷ keys) deleted = do
  there ← db_delete d key
  update (λ s. if there then add_dirty 1 (signal_modified_key d key s) else s)
  del_keys d keys (if there then deleted + 1 else deleted)

-- `delCommand`
unfoldable pub del_command : ℕ → List Bytes → M Reply
del_command d keys = do deleted ← del_keys d keys 0; pure (number (pos deleted))

-- `existsCommand`
unfoldable pub exists_command : ℕ → Bytes → M Reply
exists_command d key =
    expire_if_needed d key >>= λ _. (λ s. some (if db_exists d key s then one else zero_reply, s))

-- `typeCommand`
unfoldable pub type_command : ℕ → Bytes → M Reply
type_command d key = do o ← lookup_key_read d key; pure (type_name o)

-- The end of `renameGenericCommand`, once the source is found and the target is free.
unfoldable pub rename_to : Bool → ℕ → Bytes → Bytes → Value → ℤ → M Reply
rename_to nx d src dst o time = do
  db_add d dst o
  (if eqb_ℤ time (negsuc 0) then pure tt else set_expire d dst time)
  _ ← db_delete d src
  update (λ s. add_dirty 1 (signal_modified_key d dst (signal_modified_key d src s)))
  pure (if nx then one else ok)

unfoldable pub read_expire : ℕ → Bytes → M ℤ
read_expire d key s = elim (get_expire d key s) [ none ↦ none | some t ↦ some (t, s) ]

-- `renameGenericCommand`
unfoldable pub rename_generic : Bool → ℕ → Bytes → Bytes → M Reply
rename_generic nx d src dst =
    if equal_strings src dst
    then pure same_object
    else lookup_key_write d src >>= λ found. elim found [
      | none ↦ pure no_key
      | some o ↦ do
        time ← read_expire d src
        old ← lookup_key_write d dst
        (if is_some old && nx then pure zero_reply else do
          (if is_some old then db_delete d dst else pure false) >>= λ _.
              rename_to nx d src dst o time)
    ]

-- `selectDb`: the database of a number.
unfoldable pub select_db : Server → ℤ → Option ℕ
select_db s (negsuc n) = none
select_db s (pos n) = if ltb n s.dbnum then some n else none

-- `moveCommand`, with the number that `atoi` makes of its argument.
unfoldable pub move_to : ℕ → ℕ → Bytes → M Reply
move_to d target key =
    if d == target
    then pure same_object
    else lookup_key_write d key >>= λ found. elim found [
      | none ↦ pure zero_reply
      | some o ↦ do
        old ← lookup_key_write target key
        (if is_some old
            then pure zero_reply
            else do db_add target key o; _ ← db_delete d key; update (add_dirty 1); pure one)
    ]

unfoldable pub move_command : ℕ → Bytes → ℤ → M Reply
move_command d key id s = elim (select_db s id) [
  | none ↦ some (out_of_range, s)
  | some target ↦ move_to d target key s
]

-- `persistCommand`
unfoldable pub persist_command : ℕ → Bytes → M Reply
persist_command d key s =
    if is_some (lookup key (s.db d).dict)
    then (remove_expire d key >>= λ had.
          update (if had then add_dirty 1 else λ t. t) >> pure (if had then one else zero_reply))
        s
    else some (zero_reply, s)

-- `rewriteClientCommandVector`
unfoldable pub rewrite_command : List Bytes → Server → Server
rewrite_command args s = record s { rewritten = some args }

-- DEL
abbrev pub del_text : Bytes
del_text = b'D' ∷ b'E' ∷ b'L' ∷ []

-- The two ends of `expireGenericCommand`.
unfoldable pub expire_now : ℕ → Bytes → M Reply
expire_now d key = do
  there ← db_delete d key
  (if there
      then update
          (λ s. signal_modified_key d key (rewrite_command (del_text ∷ key ∷ []) (add_dirty 1 s)))
        >> pure one
      else fail)

unfoldable pub expire_later : ℕ → Bytes → ℤ → M Reply
expire_later d key time = do
  set_expire d key time
  update (λ s. add_dirty 1 (signal_modified_key d key s))
  pure one

unfoldable pub expire_at : ℕ → Bytes → ℤ → M Reply
expire_at d key time s =
    if leb_ℤ time s.mstime && (not s.loading && not s.masterhost)
    then expire_now d key s
    else expire_later d key time s

-- `expireGenericCommand`; the unit is seconds or milliseconds.
unfoldable pub expire_generic : (Bytes → Strtoll) → ℕ → Bytes → Bytes → ℤ → Bool → M Reply
expire_generic strtoll d key param basetime seconds = elim (get_long_long strtoll (raw param)) [
  | none ↦ pure not_integer
  | some n ↦ do
    found ← lookup_key_read d key
    (if is_some found
        then expire_at d key (add64 (if seconds then mul64 n (pos 1000) else n) basetime)
        else pure zero_reply)
]

-- The four commands, for the time of the clock.
unfoldable pub expire_command : (Bytes → Strtoll) → ℕ → Bytes → Bytes → M Reply
expire_command strtoll d key param s = expire_generic strtoll d key param s.mstime true s

unfoldable pub expireat_command : (Bytes → Strtoll) → ℕ → Bytes → Bytes → M Reply
expireat_command strtoll d key param = expire_generic strtoll d key param (pos 0) true

unfoldable pub pexpire_command : (Bytes → Strtoll) → ℕ → Bytes → Bytes → M Reply
pexpire_command strtoll d key param s = expire_generic strtoll d key param s.mstime false s

unfoldable pub pexpireat_command : (Bytes → Strtoll) → ℕ → Bytes → Bytes → M Reply
pexpireat_command strtoll d key param = expire_generic strtoll d key param (pos 0) false

-- The division of C by 1000, towards zero.
unfoldable pub thousandth : ℤ → ℤ
thousandth (pos n) = pos (n / 1000)
thousandth (negsuc n) = if suc n / 1000 == 0 then pos 0 else negsuc (suc n / 1000 - 1)

-- `ttlGenericCommand`
unfoldable pub ttl_generic : Bool → ℕ → Bytes → M Reply
ttl_generic output_ms d key s = elim (get_expire d key s) [
  | none ↦ none
  | some time ↦
      let ttl : ℤ = if eqb_ℤ time (negsuc 0) then negsuc 0 else add64 time (neg64 s.mstime) in
      some (
        number (
            if ltb_ℤ ttl (pos 0)
            then negsuc 0
            else if output_ms
            then ttl
            else thousandth (add64 ttl (pos 500))),
        s,
      )
]

abbrev pub empty_db : Db
empty_db = record { dict = []; expires = [] }

-- `flushdbCommand`
unfoldable pub flushdb_command : ℕ → M Reply
flushdb_command d = do
  update (λ s. add_dirty (length (s.db d).dict) s)
  update (λ s. record s { flushed = some d ∷ s.flushed })
  update (set_db d empty_db)
  pure ok

-- `emptyDb`, for the databases below a number: the keys removed.
unfoldable pub empty_dbs : ℕ → Server → ℕ × Server
empty_dbs zero s = (0, s)
empty_dbs (suc n) s = let r = empty_dbs n s in (r.0 + length (s.db n).dict, set_db n empty_db r.1)

-- `flushallCommand`, where no child is saving and no automatic save is set.
unfoldable pub flushall_command : M Reply
flushall_command s =
    let r = empty_dbs s.dbnum (record s { flushed = none ∷ s.flushed }) in
    some (ok, add_dirty 1 (add_dirty r.0 r.1))

-- `dbsizeCommand`
unfoldable pub dbsize_command : ℕ → M Reply
dbsize_command d s = some (number (pos (length (s.db d).dict)), s)
