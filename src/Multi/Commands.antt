-- ===== src/Multi/Commands.antt =====
-- The handlers of redis-stable/src/multi.c: MULTI, EXEC, DISCARD, WATCH and UNWATCH, the queue of a
-- transaction and what marks it to fail.
use mmog.Common.{
  ℕ, ◌&&◌, ◌||◌, not, Bool, true, false, Option, none, some, List, [], ◌∷◌, ◌++◌, length, ◌==◌,
  if◌then◌else◌,
}
use mmog.Multi.{
  Key, WatchedKey, MultiCmd, Client, Server, Reply, set_client, watch_for_key, unwatch_all_keys,
}
use mmog.Multi.Reply.{
  ok, nested_multi, exec_without_multi, discard_without_multi, watch_inside_multi, exec_abort,
  null_multi_bulk, multi_bulk,
}

-- `queueMultiCommand`
unfoldable pub queue_multi_command : Server → ℕ → MultiCmd → Server
queue_multi_command s c mc =
    set_client s c (record (s.client c) { commands = (s.client c).commands ++ (mc ∷ []) })

-- `freeClientMultiState`, `initClientMultiState` and the flags that `discardTransaction` clears.
unfoldable pub init_client_multi_state : Client → Client
init_client_multi_state x = record x {
  commands = [];
  multi = false;
  dirty_cas = false;
  dirty_exec = false;
}

-- `discardTransaction`
unfoldable pub discard_transaction : Server → ℕ → Option Server
discard_transaction s c = unwatch_all_keys (set_client s c (init_client_multi_state (s.client c))) c

-- `flagTransaction`
unfoldable pub flag_transaction : Server → ℕ → Server
flag_transaction s c =
    if (s.client c).multi then set_client s c (record (s.client c) { dirty_exec = true }) else s

-- `multiCommand`
unfoldable pub multi_command : Server → ℕ → Reply × Server
multi_command s c =
    if (s.client c).multi
    then (nested_multi, s)
    else (ok, set_client s c (record (s.client c) { multi = true }))

-- A reply with the server, where no assertion failed.
abbrev pub replied : Reply → Option Server → Option (Reply × Server)
replied r none = none
replied r (some s) = some (r, s)

-- `discardCommand`
unfoldable pub discard_command : Server → ℕ → Option (Reply × Server)
discard_command s c =
    if not (s.client c).multi
    then some (discard_without_multi, s)
    else replied ok (discard_transaction s c)

unfoldable pub watch_keys : Server → ℕ → List Key → Server
watch_keys s c [] = s
watch_keys s c (k ∷ ks) = watch_keys (watch_for_key s c k) c ks

-- `watchCommand`, given the arguments after the command's name.
unfoldable pub watch_command : Server → ℕ → List Key → Reply × Server
watch_command s c keys =
    if (s.client c).multi then (watch_inside_multi, s) else (ok, watch_keys s c keys)

unfoldable pub clear_dirty : Server → ℕ → Server
clear_dirty s c = set_client s c (record (s.client c) { dirty_cas = false })

-- `unwatchCommand`
unfoldable pub unwatch_command : Server → ℕ → Option (Reply × Server)
unwatch_command s c = elim (unwatch_all_keys s c) [
  | none ↦ none
  | some t ↦ some (ok, clear_dirty t c)
]

-- What EXEC did: the reply, the commands called in their order, whether MULTI was propagated, which
-- makes EXEC propagate too, and the server.
pub record Executed : Type 0 where
  pub reply : Reply
  pub called : List MultiCmd
  pub must_propagate : Bool
  pub server : Server

-- `call` stands for the function of redis.c that runs a command; it does not touch the queue, for
-- the commands that do are never queued.
module _ (call : Server → ℕ → MultiCmd → Server) where
  -- The loop of `execCommand`: `must_propagate` is set at the first command that is not read-only. The
  -- result begins with the commands called.
  unfoldable pub exec_loop : Server → ℕ → List MultiCmd → Bool → List MultiCmd × Bool × Server
  exec_loop s c [] must = ([], must, s)
  exec_loop s c (mc ∷ mcs) must =
      let r = exec_loop (call s c mc) c mcs (must || not mc.readonly) in (mc ∷ r.0, r.1, r.2)

  abbrev pub finished : Reply → List MultiCmd → Bool → Option Server → Option Executed
  finished r mcs must none = none
  finished r mcs must (some s) =
      some (record { reply = r; called = mcs; must_propagate = must; server = s })

  -- `execCommand`, less the feed of MONITOR.
  unfoldable pub exec_command : Server → ℕ → Option Executed
  exec_command s c =
      let x = s.client c in
      if not x.multi
      then finished exec_without_multi [] false (some s)
      else if x.dirty_cas || x.dirty_exec
      then finished (if x.dirty_exec then exec_abort else null_multi_bulk) [] false
          (discard_transaction s c)
      else elim (unwatch_all_keys s c) [
        | none ↦ none
        | some t ↦
            let (called, must, u) = exec_loop t c x.commands false in
            finished (multi_bulk (length x.commands)) called must (discard_transaction u c)
      ]

-- The inner loop of `touchWatchedKeysOnFlush`: whether a watched key of the database flushed, or of
-- any if `dbid` is -1, here `none`, exists.
unfoldable pub watches_flushed : Option ℕ → (WatchedKey → Bool) → List WatchedKey → Bool
watches_flushed dbid present [] = false
watches_flushed dbid present (wk ∷ wks) =
    ((elim dbid [ none ↦ true | some d ↦ wk.1 == d ]) && present wk)
    || watches_flushed dbid present wks

-- `touchWatchedKeysOnFlush`, given the list of the server's clients.
unfoldable pub touch_watched_keys_on_flush :
    Server → List ℕ → Option ℕ → (WatchedKey → Bool) → Server
touch_watched_keys_on_flush s [] dbid present = s
touch_watched_keys_on_flush s (c ∷ cs) dbid present =
    let x = s.client c in
    let t =
      if watches_flushed dbid present x.watched_keys
      then set_client s c (record x { dirty_cas = true })
      else s in
    touch_watched_keys_on_flush t cs dbid present
