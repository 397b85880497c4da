-- ===== src/Multi/Tests.antt =====
-- Concrete runs of the transactions: client 1 watches a key, opens a transaction and queues a SET.
use mmog.Common.{ℕ, ◌≡◌, refl, arith, true, false, none, some, [], ◌∷◌, length, if◌then◌else◌}
use mmog.Common.Bytes.{equal_strings}
use mmog.Multi.{
  Key, same_watched, is_watched, MultiCmd, Client, Server, set_client, set_watchers, watch_for_key,
  unwatch_all_keys, unwatch_loop, unwatch_key, mark_dirty, touch_watched_key,
}
use mmog.Multi.Reply.{exec_abort, null_multi_bulk, multi_bulk}
use mmog.Multi.Tally.{tally}
use mmog.Multi.Watch.{watching, Consistent, Watches, watch_for_key-Watches}
use mmog.Multi.Unwatch.{Unwatches, unwatch_all_keys-Unwatches}
use mmog.Multi.Touch.{Touches, touch_watched_key-Touches}
use mmog.Multi.Commands.{
  queue_multi_command, discard_transaction, multi_command, exec_command, exec_loop, Executed,
  init_client_multi_state, touch_watched_keys_on_flush,
}
use mmog.Multi.Steps.{
  update-Consistent, IsQuiet, AreQuiet, Discards, discard_transaction-Discards, Step, Steps,
}
use mmog.Multi.Steps.Exec.{touched-aborts, writes, after_all, exec_command-runs}

abbrev idle : Client
idle = record {
  multi = false;
  dirty_cas = false;
  dirty_exec = false;
  db = 0;
  watched_keys = [];
  commands = [];
}

abbrev start : Server
start = record { client = λ q. idle; watched_keys = λ k. none }

abbrev balance : Key
balance = b'k' ∷ []

abbrev set_balance : MultiCmd
set_balance = record { cmd = 2; argv = balance ∷ (b'1' ∷ []) ∷ []; readonly = false }

abbrev watched : Server
watched = watch_for_key start 1 balance

abbrev begun : Server
begun = (multi_command watched 1).1

abbrev ready : Server
ready = queue_multi_command begun 1 set_balance

-- A command that changes the key.
abbrev touch_balance : Server → ℕ → MultiCmd → Server
touch_balance s c mc = touch_watched_key s 0 balance

start_valid : Consistent start
unfolding tally
start_valid = record { pairs = λ c k. refl; once = λ c k. omega arith; filled = λ k e. cc }

watched_valid : Consistent watched
watched_valid = (watch_for_key-Watches start 1 balance start_valid).valid

ready_valid : Consistent ready
unfolding multi_command queue_multi_command watch_for_key is_watched set_client set_watchers
ready_valid =
    update-Consistent begun 1 _ refl
      (update-Consistent watched 1 (record (watched.client 1) { multi = true }) refl watched_valid)

ready_multi : (ready.client 1).multi ≡ true
unfolding multi_command queue_multi_command watch_for_key is_watched set_client set_watchers
ready_multi = refl

ready_clean : ((ready.client 1).dirty_cas ≡ false) × ((ready.client 1).dirty_exec ≡ false)
unfolding multi_command queue_multi_command watch_for_key is_watched set_client set_watchers
ready_clean = (refl, refl)

ready-watching : watching ready 1 (balance, 0) ≡ 1
unfolding multi_command queue_multi_command watch_for_key is_watched set_client set_watchers tally
    same_watched equal_strings
ready-watching = refl

touch_balance_valid :
    (s : Server) (c : ℕ) (mc : MultiCmd) → Consistent s → Consistent (touch_balance s c mc)
touch_balance_valid s c mc v = (touch_watched_key-Touches s 0 balance v).valid

watch_for_key-Watches_example : Watches start 1 (balance, 0) (watch_for_key start 1 balance)
watch_for_key-Watches_example = watch_for_key-Watches start 1 balance start_valid

unwatch_all_keys-Unwatches_example :
    (t : Server) × (unwatch_all_keys ready 1 ≡ some t) × Unwatches ready 1 [] t
unwatch_all_keys-Unwatches_example = unwatch_all_keys-Unwatches ready 1 ready_valid

touch_watched_key-Touches_example : Touches ready (balance, 0) (touch_watched_key ready 0 balance)
touch_watched_key-Touches_example = touch_watched_key-Touches ready 0 balance ready_valid

discard_transaction-Discards_example :
    (t : Server) × (discard_transaction ready 1 ≡ some t) × Discards ready 1 t
discard_transaction-Discards_example = discard_transaction-Discards ready 1 ready_valid

touch_balance-IsQuiet : IsQuiet touch_balance 1 set_balance
touch_balance-IsQuiet s q ne v =
    let w = touch_watched_key-Touches s 0 balance v in (w.valid, (_, w.clients 1))

abbrev touched : Server
touched = touch_watched_key ready 0 balance

-- Client 2 then executes a transaction that touches the key again.
abbrev other_ready : Server
other_ready = queue_multi_command (multi_command touched 2).1 2 set_balance

other_executes : (e : Executed) × (exec_command touch_balance other_ready 2 ≡ some e)
unfolding exec_command exec_loop multi_command queue_multi_command watch_for_key is_watched
    set_client set_watchers touch_watched_key mark_dirty unwatch_all_keys unwatch_loop unwatch_key
    discard_transaction init_client_multi_state same_watched equal_strings
other_executes = (_, refl)

-- A flush, a client that selects a database, and another command of client 1.
abbrev flushed : Server
flushed = touch_watched_keys_on_flush (other_executes.0).server (1 ∷ []) none (λ wk. true)

abbrev later : Server
later =
    queue_multi_command (set_client flushed 3 (record (flushed.client 3) { db = 5 })) 1 set_balance

other_queue : AreQuiet touch_balance 1 (other_ready.client 2).commands
unfolding multi_command queue_multi_command watch_for_key is_watched set_client set_watchers
    touch_watched_key mark_dirty same_watched equal_strings
other_queue = (touch_balance-IsQuiet, tt)

other-Steps : Steps touch_balance 1 touched (other_executes.0).server
other-Steps =
    Steps.next (Steps.next (Steps.next Steps.done (Step.begins 2)) (Step.queues 2 set_balance))
      (Step.executes 2 (other_executes.0) (λ e. absurd (omega arith)) other_queue other_executes.1)

touched-aborts_example :
    (u : Server) × (exec_command touch_balance later 1
      ≡ some (record {
        reply = if (later.client 1).dirty_exec then exec_abort else null_multi_bulk;
        called = [];
        must_propagate = false;
        server = u;
      }))
    × Discards later 1 u
touched-aborts_example =
    touched-aborts touch_balance ready later 1 0 balance ready_valid ready_multi ready-watching (
      Steps.next
        (Steps.next (Steps.next other-Steps (Step.flushes (1 ∷ []) none (λ wk. true)))
          (Step.selects 3 5))
        (Step.queues 1 set_balance))

exec_command-runs_example :
    (t u : Server) × Unwatches ready 1 [] t
    × Discards (after_all touch_balance t 1 (ready.client 1).commands) 1 u
    × (exec_command touch_balance ready 1
        ≡ some (record {
          reply = multi_bulk (length (ready.client 1).commands);
          called = (ready.client 1).commands;
          must_propagate = writes (ready.client 1).commands;
          server = u;
        }))
unfolding multi_command queue_multi_command watch_for_key is_watched set_client set_watchers
exec_command-runs_example =
    exec_command-runs touch_balance ready 1 touch_balance_valid ready_valid refl refl
