-- ===== src/Multi.antt =====
-- redis-stable/src/multi.c: MULTI, EXEC, DISCARD, WATCH and UNWATCH. A client is a number, and a
-- server keeps the state of each; a key is the list of its bytes.
pub mod Tally
pub mod Watch
pub mod Unwatch
pub mod Touch
pub mod Commands
pub mod Steps
mod Tests
use mmog.Common.{
  ℕ, zero, suc, ◌+◌, ◌≡◌, ◌&&◌, ◌||◌, not, Bool, true, false, Option, none, some, List, [], ◌∷◌,
  ◌++◌, length, ◌==◌, if◌then◌else◌,
}
use mmog.Common.Bytes.{equal_strings}

abbrev pub Key : Type 0
Key = List ℕ

-- `watchedKey`; a database is its number.
abbrev pub WatchedKey : Type 0
WatchedKey = Key × ℕ

-- The comparison of `watchForKey`.
unfoldable pub same_watched : WatchedKey → WatchedKey → Bool
same_watched a b = a.1 == b.1 && equal_strings a.0 b.0

-- `listSearchKey` on a list of watched keys.
unfoldable pub is_watched : WatchedKey → List WatchedKey → Bool
is_watched wk [] = false
is_watched wk (k ∷ ks) = if same_watched k wk then true else is_watched wk ks

-- `multiCmd`: the number of the command's entry in the command table, its arguments, and whether
-- that entry has REDIS_CMD_READONLY.
pub record MultiCmd : Type 0 where
  pub cmd : ℕ
  pub argv : List Key
  pub readonly : Bool

-- The part of `redisClient` that transactions use: the flags REDIS_MULTI, REDIS_DIRTY_CAS and
-- REDIS_DIRTY_EXEC, the database selected, the keys watched and the queue.
pub record Client : Type 0 where
  pub multi : Bool
  pub dirty_cas : Bool
  pub dirty_exec : Bool
  pub db : ℕ
  pub watched_keys : List WatchedKey
  pub commands : List MultiCmd

-- `db->watched_keys` of every database, and the clients.
pub record Server : Type 0 where
  pub client : ℕ → Client
  pub watched_keys : WatchedKey → Option (List ℕ)

-- A reply is what the client is sent.
pub data Reply : Type 0 where
  ok : Reply
  nested_multi : Reply
  exec_without_multi : Reply
  discard_without_multi : Reply
  watch_inside_multi : Reply
  exec_abort : Reply
  null_multi_bulk : Reply
  multi_bulk : ℕ → Reply

unfoldable pub set_client : Server → ℕ → Client → Server
set_client s c x = record s { client = λ q. if q == c then x else s.client q }

-- `dictAdd`, `dictDelete` and writes through a value of the dictionary of watched keys.
unfoldable pub set_watchers : Server → WatchedKey → Option (List ℕ) → Server
set_watchers s wk l = record s {
  watched_keys = λ q. if same_watched q wk then l else s.watched_keys q;
}

-- `listDelNode(clients, listSearchKey(clients, c))`
unfoldable pub delete_client : ℕ → List ℕ → List ℕ
delete_client c [] = []
delete_client c (q ∷ qs) = if q == c then qs else q ∷ delete_client c qs

-- The list of clients under a key, `listCreate()` where there is none.
abbrev pub clients_of : Option (List ℕ) → List ℕ
clients_of none = []
clients_of (some l) = l

-- `watchForKey`
unfoldable pub watch_for_key : Server → ℕ → Key → Server
watch_for_key s c key =
    let x = s.client c in
    let wk : WatchedKey = (key, x.db) in
    if is_watched wk x.watched_keys
    then s
    else set_client (set_watchers s wk (some (clients_of (s.watched_keys wk) ++ (c ∷ [])))) c
        (record x { watched_keys = x.watched_keys ++ (wk ∷ []) })

-- One round of `unwatchAllKeys`, on the first key of the list: `none` where its assertion fails.
unfoldable pub unwatch_key : Server → ℕ → WatchedKey → List WatchedKey → Option Server
unwatch_key s c wk wks = elim (s.watched_keys wk) [
  | none ↦ none
  | some clients ↦
      let left = delete_client c clients in
      some (
        set_client (set_watchers s wk (elim left [ [] ↦ none | q ∷ qs ↦ some (q ∷ qs) ])) c
          (record (s.client c) { watched_keys = wks }))
]

unfoldable pub unwatch_loop : Server → ℕ → List WatchedKey → Option Server
unwatch_loop s c [] = some s
unwatch_loop s c (wk ∷ wks) = elim (unwatch_key s c wk wks) [
  | none ↦ none
  | some t ↦ unwatch_loop t c wks
]

-- `unwatchAllKeys`
unfoldable pub unwatch_all_keys : Server → ℕ → Option Server
unwatch_all_keys s c = unwatch_loop s c (s.client c).watched_keys

unfoldable pub mark_dirty : Server → List ℕ → Server
mark_dirty s [] = s
mark_dirty s (c ∷ cs) = mark_dirty (set_client s c (record (s.client c) { dirty_cas = true })) cs

-- `touchWatchedKey`
unfoldable pub touch_watched_key : Server → ℕ → Key → Server
touch_watched_key s db key = elim (s.watched_keys (key, db)) [
  | none ↦ s
  | some clients ↦ mark_dirty s clients
]
