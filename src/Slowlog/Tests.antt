-- ===== src/Slowlog/Tests.antt =====
-- Concrete runs of the slow log.
use mmog.Common.{◌≡◌, refl, arith, List, [], ◌∷◌, length, take, if◌then◌else◌, pos, negsuc, ltb_ℤ}
use mmog.Slowlog.{
  Arg, Entry, Log, create_entry, copy_args, copy_arg, delete_last, trim, push_entry_if_needed,
  slowlog_command,
}
use mmog.Slowlog.Reply.{rows}
use mmog.Slowlog.Subcommand.{reset_entries, get_count}
use mmog.Slowlog.Entries.{
  push_entry_if_needed_lem, Descending, push_entry_if_needed-Descending, slowlog_command_lem,
}

abbrev ping : List Arg
ping = Arg.raw (b'P' ∷ b'I' ∷ b'N' ∷ b'G' ∷ []) ∷ []

abbrev old : Entry
old = record { argv = ping; id = 4; duration = pos 900; time = pos 100 }

-- One entry at most, for commands of 10 microseconds or more.
abbrev log : Log
log = record { entries = old ∷ []; entry_id = 5; log_slower_than = pos 10; max_len = 1 }

pushed : length (push_entry_if_needed log ping (pos 20) (pos 200)).entries ≡ 1
unfolding push_entry_if_needed create_entry copy_args copy_arg delete_last trim
pushed = refl

log-Descending : Descending log.entry_id log.entries
unfolding Descending
log-Descending = (omega arith, tt)

push_entry_if_needed_lem_example : (push_entry_if_needed log ping (pos 20) (pos 200)).entries ≡ (
    if ltb_ℤ log.log_slower_than (pos 0)
    then log.entries
    else take log.max_len (
        if ltb_ℤ (pos 20) log.log_slower_than
        then log.entries
        else create_entry ping (pos 20) (pos 200) log.entry_id ∷ log.entries))
push_entry_if_needed_lem_example = push_entry_if_needed_lem log ping (pos 20) (pos 200)

push_entry_if_needed-Descending_example :
    let m = push_entry_if_needed log ping (pos 20) (pos 200) in Descending m.entry_id m.entries
push_entry_if_needed-Descending_example =
    push_entry_if_needed-Descending log ping (pos 20) (pos 200) log-Descending

slowlog_command_lem_example :
    (slowlog_command log (get_count (pos 1)) ≡ (rows (take 1 log.entries), log))
    × (slowlog_command log (get_count (negsuc 1)) ≡ (rows log.entries, log))
    × ((slowlog_command log reset_entries).1.entries ≡ [])
slowlog_command_lem_example = slowlog_command_lem log 1
